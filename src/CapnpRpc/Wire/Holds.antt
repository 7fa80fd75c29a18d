-- ===== src/CapnpRpc/Wire/Holds.antt =====
-- What a segment holds, in a form that survives words added at either end, and what the reader
-- makes of it.
use argo_rust.Base.{
  ℕ, zero, suc, ◌+◌, ◌-◌, ◌*◌, ◌/◌, ◌%◌, ◌^◌, ◌<◌, ◌≤◌, ◌≡◌, refl, sym, ap, ◌∙◌, List, [], ◌∷◌,
  ◌++◌, some, length, length-append, get_elem?, take, drop, last-append, replicate, All,
  append_assoc, arith,
}
use argo_rust.CapnpRpc.Bytes.{Bytes, IsByte, as_bytes}
use argo_rust.CapnpRpc.Bytes.Laws.{as_bytes-append, length-as_bytes, padded, as_bytes-padded}
use argo_rust.CapnpRpc.SegBuilder.{word_offset, struct_ptr, list_ptr}
use argo_rust.CapnpRpc.SegBuilder.Pointers.{struct_ptr_lem, list_ptr_lem}
use argo_rust.CapnpRpc.Wire.{target, struct_at, list_at, data_at, text_at}

module _ {ℓ} {A : Type ℓ} where
  pub get_elem?-append_right :
      (pre ys : List A) (i : ℕ) → get_elem? (pre ++ ys) (length pre + i) ≡ get_elem? ys i
  get_elem?-append_right [] ys i = let e : 0 + i ≡ i = omega arith in rw e
  get_elem?-append_right (x ∷ pre) ys i =
      let e : suc (length pre) + i ≡ suc (length pre + i) = omega arith in
      rw e (get_elem?-append_right pre ys i)

  pub get_elem?-append_left :
      (xs post : List A) (i : ℕ) {x : A}
      → get_elem? xs i ≡ some x
      → get_elem? (xs ++ post) i ≡ some x
  get_elem?-append_left [] post i e = cc
  get_elem?-append_left (y ∷ xs) post zero e = e
  get_elem?-append_left (y ∷ xs) post (suc i) e = get_elem?-append_left xs post i e

  pub drop-append : (xs ys : List A) → drop (length xs) (xs ++ ys) ≡ ys
  drop-append [] ys = refl
  drop-append (x ∷ xs) ys = drop-append xs ys

  pub take-append : (xs ys : List A) → take (length xs) (xs ++ ys) ≡ xs
  take-append [] ys = refl
  take-append (x ∷ xs) ys = ap (λ (r : List A). x ∷ r) (take-append xs ys)

-- The bytes `src` stand at word `t`.
pub record HoldsBytes (ws : List ℕ) (t : ℕ) (src : Bytes) : Type 0 where
  pub front : Bytes
  pub back : Bytes
  pub shape : as_bytes ws ≡ front ++ (src ++ back)
  pub start : length front ≡ t * 8

pub HoldsBytes-shift :
    (pre ws : List ℕ) (t : ℕ) (src : Bytes)
    → HoldsBytes ws t src
    → HoldsBytes (pre ++ ws) (length pre + t) src
HoldsBytes-shift pre ws t src h = record {
  front = as_bytes pre ++ h.front;
  back = h.back;
  shape =
      as_bytes-append pre ws
      ∙ ap (λ (r : Bytes). as_bytes pre ++ r) h.shape
      ∙ sym (append_assoc (as_bytes pre) h.front (src ++ h.back));
  start = omega (arith, length-append {0} (as_bytes pre) h.front, length-as_bytes pre, h.start);
}

pub HoldsBytes-append :
    (ws post : List ℕ) (t : ℕ) (src : Bytes) → HoldsBytes ws t src → HoldsBytes (ws ++ post) t src
HoldsBytes-append ws post t src h = record {
  front = h.front;
  back = h.back ++ as_bytes post;
  shape =
      as_bytes-append ws post
      ∙ ap (λ (r : Bytes). r ++ as_bytes post) h.shape
      ∙ append_assoc h.front (src ++ h.back) (as_bytes post)
      ∙ ap (λ (r : Bytes). h.front ++ r) (append_assoc src h.back (as_bytes post));
  start = h.start;
}

pub HoldsBytes-bound :
    {ws : List ℕ} {t : ℕ} {src : Bytes} → HoldsBytes ws t src → t * 8 + length src ≤ length ws * 8
HoldsBytes-bound {ws} {t} {src} h = omega (
  arith,
  length-as_bytes ws,
  ap (λ (r : Bytes). length r) h.shape,
  length-append {0} h.front (src ++ h.back),
  length-append {0} src h.back,
  h.start,
)

-- An offset in either direction leads back to its target.
target_lem :
    (t i k rest : ℕ)
    → t < 2 ^ 29
    → i < 2 ^ 29
    → k < 4
    → target i (4 * (word_offset t i % 2 ^ 30) + k + 2 ^ 32 * rest) ≡ some t
unfolding target
target_lem t i k rest ht hi hk = ground arith

pub list_at_lem :
    (ws : List ℕ) (i t n e : ℕ)
    → get_elem? ws i ≡ some (list_ptr (word_offset t i) n e)
    → t < 2 ^ 29
    → i < 2 ^ 29
    → n < 2 ^ 29
    → e < 8
    → list_at ws i e ≡ some (t, n)
unfolding list_at
list_at_lem ws i t n e p ht hi hn he =
    let o : ℕ = word_offset t i in
    let value = list_ptr_lem o n e hn he in
    rw (p, value, target_lem t i 1 (e + 8 * n) ht hi (omega arith)) (ground arith)

pub struct_at_lem :
    (ws : List ℕ) (i t d n : ℕ)
    → get_elem? ws i ≡ some (struct_ptr (word_offset t i) d n)
    → t + d + n ≤ length ws
    → length ws < 2 ^ 29
    → i < 2 ^ 29
    → d < 2 ^ 16
    → n < 2 ^ 16
    → struct_at ws i d n ≡ some t
unfolding struct_at
struct_at_lem ws i t d n p fits hw hi hd hn =
    let o : ℕ = word_offset t i in
    let value : struct_ptr o d n ≡ 4 * (o % 2 ^ 30) + 0 + 2 ^ 32 * (d + 2 ^ 16 * n) =
      omega (arith, struct_ptr_lem o d n hd hn) in
    rw (p, value, target_lem t i 0 (d + 2 ^ 16 * n) (omega arith) hi (omega arith)) (ground arith)

data_shape :
    (t : ℕ) (ws : List ℕ) (src : Bytes)
    → HoldsBytes ws t src
    → take (length src) (drop (t * 8) (as_bytes ws)) ≡ src
data_shape t ws src h = rw (h.shape, ← h.start, drop-append, take-append)

-- The reader finds the bytes where a byte list pointer says.
pub data_at_lem :
    (ws : List ℕ) (i t : ℕ) (src : Bytes)
    → get_elem? ws i ≡ some (list_ptr (word_offset t i) (length src) 2)
    → HoldsBytes ws t src
    → length ws < 2 ^ 26
    → i < 2 ^ 26
    → data_at ws i ≡ some src
unfolding data_at
data_at_lem ws i t src p h small near =
    let bound = HoldsBytes-bound h in
    rw
      (
        list_at_lem ws i t (length src) 2 p (omega arith) (omega arith) (omega arith) (omega arith),
        data_shape t ws src h,
      )
      (ground arith)

-- A text is found with its NUL, and without it in the result.
pub text_at_lem :
    (ws : List ℕ) (i t : ℕ) (s : Bytes)
    → get_elem? ws i ≡ some (list_ptr (word_offset t i) (length s + 1) 2)
    → HoldsBytes ws t (s ++ 0 ∷ [])
    → length ws < 2 ^ 26
    → i < 2 ^ 26
    → text_at ws i ≡ some s
unfolding text_at
text_at_lem ws i t s p h small near =
    let count : length (s ++ 0 ∷ []) ≡ length s + 1 = omega (arith, length-append {0} s (0 ∷ [])) in
    let pointer = (rw (← count) at p) in
    let stem : length (s ++ 0 ∷ []) - 1 ≡ length s = omega (arith, count) in
    rw (
      data_at_lem ws i t (s ++ 0 ∷ []) pointer h small near,
      last-append s 0,
      stem,
      take-append s (0 ∷ []),
    )

-- The words that `alloc_data` and `alloc_text` leave for their bytes.
abbrev pub data_words : Bytes → List ℕ
data_words d = padded ((length d + 7) / 8) d

abbrev pub text_words : Bytes → List ℕ
text_words b = padded ((length b + 1 + 7) / 8) b

pub data_words-HoldsBytes : (d : Bytes) → All IsByte d → HoldsBytes (data_words d) 0 d
data_words-HoldsBytes d h = record {
  front = [];
  back = replicate ((length d + 7) / 8 * 8 - length d) 0;
  shape = as_bytes-padded ((length d + 7) / 8) d (omega arith) h;
  start = omega arith;
}

pub text_words-HoldsBytes : (b : Bytes) → All IsByte b → HoldsBytes (text_words b) 0 (b ++ 0 ∷ [])
text_words-HoldsBytes b h =
    let rest : ℕ = (length b + 1 + 7) / 8 * 8 - (length b + 1) in
    let zeros : (length b + 1 + 7) / 8 * 8 - length b ≡ suc rest = omega arith in
    record {
      front = [];
      back = replicate rest 0;
      shape =
          as_bytes-padded ((length b + 1 + 7) / 8) b (omega arith) h
          ∙ ap (λ (m : ℕ). b ++ replicate m 0) zeros
          ∙ sym (append_assoc b (0 ∷ []) (replicate rest 0));
      start = omega arith;
    }
