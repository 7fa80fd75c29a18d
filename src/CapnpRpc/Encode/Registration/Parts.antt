-- ===== src/CapnpRpc/Encode/Registration/Parts.antt =====
-- Pointers and byte strings of a part that stands at word `k` of a larger segment.
use argo_rust.Base.{
  ℕ, zero, suc, ◌+◌, ◌^◌, ◌<◌, ◌≤◌, ◌≡◌, ap, ◌∙◌, List, [], ◌∷◌, ◌++◌, some, length, get_elem?,
  arith,
}
use argo_rust.CapnpRpc.Bytes.{Bytes}
use argo_rust.CapnpRpc.SegBuilder.{word_offset, struct_ptr, list_ptr}
use argo_rust.CapnpRpc.Wire.{struct_at, list_at, data_at, text_at}
use argo_rust.CapnpRpc.Wire.Holds.{HoldsBytes, struct_at_lem, list_at_lem, data_at_lem, text_at_lem}

pub get_elem?-lt {ℓ} :
    {A : Type ℓ} (xs : List A) (i : ℕ) {x : A} → get_elem? xs i ≡ some x → i < length xs
get_elem?-lt [] i e = cc
get_elem?-lt (x ∷ xs) zero e = omega arith
get_elem?-lt (x ∷ xs) (suc i) e = omega (arith, get_elem?-lt xs i e)

-- A pointer does not change when it and its target move together.
word_offset-shift : (k t i : ℕ) → k + i < 2 ^ 29 → word_offset t i ≡ word_offset (k + t) (k + i)
word_offset-shift k t i h = omega arith

module _ (ws : List ℕ) (k : ℕ) (small : length ws < 2 ^ 26) where
  pub struct_here :
      (i t d n : ℕ)
      → get_elem? ws (k + i) ≡ some (struct_ptr (word_offset t i) d n)
      → k + t + d + n ≤ length ws
      → d < 2 ^ 16
      → n < 2 ^ 16
      → struct_at ws (k + i) d n ≡ some (k + t)
  struct_here i t d n p fits hd hn =
      let near = get_elem?-lt ws (k + i) p in
      struct_at_lem ws (k + i) (k + t) d n
        (p ∙ ap (λ (o : ℕ). some (struct_ptr o d n)) (word_offset-shift k t i (omega arith))) fits
        (omega arith) (omega arith) hd hn

  pub list_here :
      (i t n e : ℕ)
      → get_elem? ws (k + i) ≡ some (list_ptr (word_offset t i) n e)
      → k + t ≤ length ws
      → n ≤ length ws
      → e < 8
      → list_at ws (k + i) e ≡ some (k + t, n)
  list_here i t n e p fits hn he =
      let near = get_elem?-lt ws (k + i) p in
      list_at_lem ws (k + i) (k + t) n e
        (p ∙ ap (λ (o : ℕ). some (list_ptr o n e)) (word_offset-shift k t i (omega arith)))
        (omega arith) (omega arith) (omega arith) he

  pub data_here :
      (i t : ℕ) (src : Bytes)
      → get_elem? ws (k + i) ≡ some (list_ptr (word_offset t i) (length src) 2)
      → HoldsBytes ws (k + t) src
      → data_at ws (k + i) ≡ some src
  data_here i t src p h =
      let near = get_elem?-lt ws (k + i) p in
      data_at_lem ws (k + i) (k + t) src
        (p
          ∙ ap (λ (o : ℕ). some (list_ptr o (length src) 2))
              (word_offset-shift k t i (omega arith)))
        h small (omega arith)

  pub text_here :
      (i t : ℕ) (s : Bytes)
      → get_elem? ws (k + i) ≡ some (list_ptr (word_offset t i) (length s + 1) 2)
      → HoldsBytes ws (k + t) (s ++ 0 ∷ [])
      → text_at ws (k + i) ≡ some s
  text_here i t s p h =
      let near = get_elem?-lt ws (k + i) p in
      text_at_lem ws (k + i) (k + t) s
        (p
          ∙ ap (λ (o : ℕ). some (list_ptr o (length s + 1) 2))
              (word_offset-shift k t i (omega arith)))
        h small (omega arith)
