-- ===== src/Schema/Memory/Laws.antt =====
-- The concrete layout has the laws of the layout module of the crate capnp that the generated code of
-- src/tunnelrpc_capnp.rs relies on.
use argo_rust.Base.{
  ℕ, zero, suc, ◌+◌, ◌-◌, ◌*◌, ◌/◌, ◌%◌, ◌^◌, ◌≤◌, ◌<◌, Bool, true, false, List, [], ◌∷◌, ok, ◌≡◌,
  ◌≢◌, ◌⊎◌, refl, ◌∙◌, arith, ◌==◌, ==_iff, inl, inr,
}
use native.Mathlib.Nat.{pow-suc, mul-suc}
use argo_rust.Schema.{Primitive, width}
use argo_rust.Schema.Writes.{Apart, LayoutLaws}
use argo_rust.Schema.Memory.{
  Cell, Record, bit, cells, from_bits, memory, nth_bit, put_bits, to_cells, within,
}

from_bits_cong :
    (w : ℕ) (f g : ℕ → Bool) → ((k : ℕ) → k < w → f k ≡ g k) → from_bits w f ≡ from_bits w g
from_bits_cong zero f g h = refl
from_bits_cong (suc w) f g h =
    let first : 0 < suc w = omega arith in
    let rest =
      from_bits_cong w (λ k. f (suc k)) (λ k. g (suc k)) (λ k less. h (suc k) (omega arith)) in
    rw (h 0 first, rest) refl

pub bit-odd : (v : ℕ) → bit (v % 2 == 1) ≡ v % 2
bit-odd v = ground arith

from_bits-nth_bit : (w v : ℕ) → v < 2 ^ w → from_bits w (nth_bit v) ≡ v
from_bits-nth_bit zero v less = omega arith
from_bits-nth_bit (suc w) v less =
    let half : v / 2 < 2 ^ w = omega (arith, pow-suc 2 w) in
    rw (bit-odd v, from_bits-nth_bit w (v / 2) half) (omega arith)

within_self : (o w k : ℕ) → k < w → within o w (o + k) ≡ true
within_self o w k less = ground arith

put_bits_self : (o w v k : ℕ) (f : ℕ → Bool) → k < w → put_bits o w v f (o + k) ≡ nth_bit v k
put_bits_self o w v k f less =
    let back : o + k - o ≡ k = omega arith in rw (within_self o w k less, back) refl

put_bits_apart :
    (o w v q x k : ℕ) (f : ℕ → Bool)
    → (o + w ≤ q) ⊎ (q + x ≤ o)
    → k < x
    → put_bits o w v f (q + k) ≡ f (q + k)
put_bits_apart o w v q x k f apart less =
    let outside : within o w (q + k) ≡ false = ground arith in rw outside refl

Apart-order :
    (t : Primitive) (i : ℕ) (u : Primitive) (j : ℕ)
    → Apart t i u j
    → (width t * i + width t ≤ width u * j) ⊎ (width u * j + width u ≤ width t * i)
Apart-order t i u j (inl h) = inl (omega (arith, mul-suc (width t) i))
Apart-order t i u j (inr h) = inr (omega (arith, mul-suc (width u) j))

get_list-to_list : (ps : List Cell) → cells (to_cells ps) ≡ ok ps
get_list-to_list [] = refl
get_list-to_list (p ∷ ps) = rw (get_list-to_list ps) refl

self_test : (i : ℕ) → (i == i) ≡ true
self_test i = (==_iff i i).1 refl

other_test : (i j : ℕ) → i ≢ j → (i == j) ≡ false
other_test i j differ = ground arith

from_bits-zero : (w : ℕ) → from_bits w (λ k. false) ≡ 0
from_bits-zero zero = refl
from_bits-zero (suc w) = rw (from_bits-zero w) refl

pub memory-LayoutLaws : LayoutLaws memory
memory-LayoutLaws = record {
  size = λ s. Record.size s;
  size-init_struct = λ z. refl;
  size-set_pointer_field = λ s i p. refl;
  size-set_data_field = λ t s i v. refl;
  get_pointer_field-set_pointer_field = λ s i p inside. rw (self_test i) refl;
  get_pointer_field-set_other = λ s i p j differ. rw (other_test i j differ) refl;
  get_pointer_field-set_data_field = λ t s i v j. refl;
  get_data_field-set_pointer_field = λ t s i j p. refl;
  get_data_field-set_data_field = λ t s i v inside fits.
      from_bits_cong (width t)
        (λ k. put_bits (width t * i) (width t) v (Record.bits s) (width t * i + k)) (nth_bit v)
        (λ k less. put_bits_self (width t * i) (width t) v k (Record.bits s) less)
      ∙ from_bits-nth_bit (width t) v fits;
  get_data_field-set_other = λ t s i v u j apart.
      from_bits_cong (width u)
        (λ k. put_bits (width t * i) (width t) v (Record.bits s) (width u * j + k))
        (λ k. Record.bits s (width u * j + k))
        (λ k less.
          put_bits_apart (width t * i) (width t) v (width u * j) (width u) k (Record.bits s)
            (Apart-order t i u j apart) less);
  get_pointer_field-init_struct = λ z i. refl;
  get_data_field-init_struct = λ t z i. from_bits-zero (width t);
  get_struct-to_struct = λ s. refl;
  get_text-to_text = λ b. refl;
  get_data-to_data = λ b. refl;
  get_list-to_list = get_list-to_list;
  set_struct_lem = λ s. refl;
  set_list_lem = λ ps. refl;
  is_null-null = refl;
  is_null-to_struct = λ s. refl;
}
