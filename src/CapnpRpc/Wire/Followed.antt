-- ===== src/CapnpRpc/Wire/Followed.antt =====
-- What the reader of segments has found where it gives a result, for the segments of src/capnp_rpc.rs.
use argo_rust.Base.{
  ℕ, ◌+◌, ◌/◌, ◌%◌, ◌^◌, Bool, true, false, List, Option, none, some, and_then, ◌≡◌, refl, ◌==◌,
  ◌&&◌, leb, get_elem?, length, arith,
}
use argo_rust.CapnpRpc.Wire.{target, struct_at, when}

pub and_then-eq-some {ℓ κ} :
    {A : Type ℓ} {B : Type κ} (o : Option A) (f : A → Option B) {b : B}
    → and_then o f ≡ some b
    → (a : A) × (o ≡ some a) × (f a ≡ some b)
and_then-eq-some none f e = cc e
and_then-eq-some (some a) f e = (a, refl, e)

pub when-eq-some {ℓ} :
    {A : Type ℓ} (b : Bool) (o : Option A) {a : A} → when b o ≡ some a → (b ≡ true) × (o ≡ some a)
when-eq-some true o e = (refl, e)
when-eq-some false o e = cc e

-- A pointer that `struct_at` accepts has its kind and the sizes.
pub struct_at-sizes :
    (ws : List ℕ) (i d c t : ℕ)
    → struct_at ws i d c ≡ some t
    → (p : ℕ) × (get_elem? ws i ≡ some p)
      × (p % 4 ≡ 0)
      × (p / 2 ^ 32 % 2 ^ 16 ≡ d)
      × (p / 2 ^ 48 ≡ c)
unfolding struct_at
struct_at-sizes ws i d c t e =
    let (p, found, rest) =
      and_then-eq-some (get_elem? ws i)
        (λ p. and_then (target i p) (λ t.
          when
            (p % 4 == 0
              && p / 2 ^ 32 % 2 ^ 16 == d
              && p / 2 ^ 48 == c
              && leb (t + d + c) (length ws))
            (some t)))
        e in
    let (u, aimed, last) =
      and_then-eq-some (target i p)
        (λ t.
          when
            (p % 4 == 0
              && p / 2 ^ 32 % 2 ^ 16 == d
              && p / 2 ^ 48 == c
              && leb (t + d + c) (length ws))
            (some t))
        rest in
    let (held, same) =
      when-eq-some
        (p % 4 == 0 && p / 2 ^ 32 % 2 ^ 16 == d && p / 2 ^ 48 == c && leb (u + d + c) (length ws))
        (some u) last in
    (p, found, ground arith, ground arith, ground arith)
