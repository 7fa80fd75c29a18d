-- ===== src/Tests/HeaderMaps.antt =====
-- A header map of the crate http, as the code of src/tunnel.rs uses it, at a concrete value: a list
-- with one entry for a name.
use argo_rust.Base.{
  ◌≡◌, ◌↔◌, inl, inr, sym, ap, subst, Bool, true, false, Bool-cases, [], ◌∷◌, Option, none, some,
  Str, str_eq, str_eq_refl, if◌then◌else◌,
}
use argo_rust.CapnpRpc.Bytes.{Bytes}
use argo_rust.Http.{HeaderMap}
use argo_rust.Tunnel.Sent.{In}

abbrev pub get : HeaderMap → Str → Option Bytes
get [] name = none
get ((k, v) ∷ headers) name = if str_eq k name then some v else get headers name

abbrev remove : HeaderMap → Str → HeaderMap
remove [] k = []
remove ((n, v) ∷ headers) k =
    let rest = remove headers k in if str_eq k n then rest else (n, v) ∷ rest

-- The new value in place of the others under the name.
abbrev pub insert : HeaderMap → Str → Bytes → HeaderMap
insert headers k v = (k, v) ∷ remove headers k

differs : {b : Bool} → b ≡ false → b ≡ true → ⊥
differs p q = cc

-- A test that fails refutes the equation.
unequal : (k n : Str) → str_eq k n ≡ false → n ≡ k → ⊥
unequal k n other e = differs other (subst (λ x. str_eq k x ≡ true) (sym e) (str_eq_refl k))

remove_self : (m : HeaderMap) (k : Str) (w : Bytes) → In (k, w) (remove m k) → ⊥
remove_self [] k w m = m
remove_self ((n, v) ∷ headers) k w m = elim (Bool-cases (str_eq k n)) [
  | inl same ↦ remove_self headers k w (rw same at m)
  | inr other ↦ apart other (remove_self headers k w) (rw other at m)
]
  where
    apart :
        str_eq k n ≡ false
        → (In (k, w) (remove headers k) → ⊥)
        → In (k, w) ((n, v) ∷ remove headers k)
        → ⊥
    apart other rest (inl e) = unequal k n other (sym (ap (λ p. p.0) e))
    apart other rest (inr m) = rest m

removed-In : (m : HeaderMap) (k n : Str) (w : Bytes) → In (n, w) (remove m k) → In (n, w) m
removed-In [] k n w m = m
removed-In ((h, v) ∷ headers) k n w m = elim (Bool-cases (str_eq k h)) [
  | inl same ↦ inr (removed-In headers k n w (rw same at m))
  | inr other ↦ kept (removed-In headers k n w) (rw other at m)
]
  where
    kept :
        (In (n, w) (remove headers k) → In (n, w) headers)
        → In (n, w) ((h, v) ∷ remove headers k)
        → In (n, w) ((h, v) ∷ headers)
    kept rest (inl e) = inl e
    kept rest (inr m) = inr (rest m)

In-remove :
    (m : HeaderMap) (k n : Str) (w : Bytes)
    → str_eq k n ≡ false
    → In (n, w) m
    → In (n, w) (remove m k)
In-remove [] k n w other m = m
In-remove ((h, v) ∷ headers) k n w other (inl e) =
    let stays : str_eq k h ≡ false = subst (λ x. str_eq k x ≡ false) (ap (λ p. p.0) e) other in
    rw stays (inl e)
In-remove ((h, v) ∷ headers) k n w other (inr m) =
    let rest = In-remove headers k n w other m in
    elim (Bool-cases (str_eq k h)) [ inl same ↦ rw same rest | inr stays ↦ rw stays (inr rest) ]

pub insert_self : (m : HeaderMap) (k : Str) (v w : Bytes) → In (k, w) (insert m k v) ↔ (v ≡ w)
insert_self m k v w = (first, λ e. inl (ap (λ b. (k, b)) (sym e)))
  where
    first : In (k, w) (insert m k v) → v ≡ w
    first (inl e) = sym (ap (λ p. p.1) e)
    first (inr rest) = absurd (remove_self m k w rest)

pub insert_other :
    (m : HeaderMap) (k : Str) (v : Bytes) (n : Str) (w : Bytes)
    → str_eq k n ≡ false
    → In (n, w) (insert m k v) ↔ In (n, w) m
insert_other m k v n w other = (first, λ e. inr (In-remove m k n w other e))
  where
    first : In (n, w) (insert m k v) → In (n, w) m
    first (inl e) = absurd (unequal k n other (ap (λ p. p.0) e))
    first (inr rest) = removed-In m k n w rest
