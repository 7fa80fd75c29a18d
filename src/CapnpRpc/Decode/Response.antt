-- ===== src/CapnpRpc/Decode/Response.antt =====
-- `decode_connection_response` on a framed segment.
use mathlib.Core.Bool.{Bool, true, false}
use argo_rust.Base.{
  ℕ, suc, ◌+◌, ◌*◌, ◌/◌, ◌%◌, ◌^◌, ◌<◌, ◌≤◌, ◌≡◌, refl, sym, ap, subst, ◌∙◌, List, [], ◌∷◌, ◌++◌,
  some, length, length-append, drop, take, ltb, ◌==◌, ◌&&◌, append-nil, arith,
}
use argo_rust.CapnpRpc.Bytes.{Bytes, as_bytes, from_le, to_le}
use argo_rust.CapnpRpc.Bytes.Laws.{length-as_bytes, as_bytes-append, from_le-to_le}
use argo_rust.CapnpRpc.Wire.{target}
use argo_rust.CapnpRpc.Wire.Holds.{drop-append, take-append}
use argo_rust.CapnpRpc.Decode.{
  returns, fails, rejected, unknown, unknown_error, returns_or, slice, offset_of, decode_struct,
  decode_connection_response, ◌>>=◌,
}
use argo_rust.CapnpRpc.Decode.Text.{
  usize_lem, slice_lem, word_at, without_text, read_text_ptr-without_text,
}

struct_start_lem : (r : ℕ) {s : ℕ} → target 0 r ≡ some s → (1 + offset_of r) % 2 ^ 64 ≡ s
unfolding target
struct_start_lem r e = ground arith

drop_header : (h rest : Bytes) → length h ≡ 8 → drop 8 (h ++ rest) ≡ rest
drop_header h rest e = subst (λ n. drop n (h ++ rest) ≡ rest) e (drop-append h rest)

slice_rest : (xs ys : Bytes) → slice (xs ++ ys) (length xs) (length (xs ++ ys)) ≡ returns ys
slice_rest xs ys =
    let size = length-append {0} xs ys in
    let all : take (length ys) ys ≡ ys =
      subst (λ (r : Bytes). take (length ys) r ≡ ys) (append-nil ys) (take-append ys []) in
    subst (λ n. slice (xs ++ ys) (length xs) n ≡ returns ys) (sym size)
      (slice_lem (xs ++ ys) (length xs) (length ys) (omega arith) ∙ rw (drop-append xs ys, all))

tag_lem : (w : ℕ) (rest : List ℕ) → slice (as_bytes (w ∷ rest)) 0 2 ≡ returns (to_le 2 w)
unfolding as_bytes to_le
tag_lem w rest =
    let bytes : Bytes = as_bytes (w ∷ rest) in
    slice_lem bytes 0 2 (omega (arith, length-as_bytes (w ∷ rest)))

struct_data_lem :
    (front rest : List ℕ)
    → slice (as_bytes (front ++ rest)) (length front * 8) (length (as_bytes (front ++ rest)))
      ≡ returns (as_bytes rest)
struct_data_lem front rest =
    rw (as_bytes-append front rest, ← length-as_bytes front)
      (slice_rest (as_bytes front) (as_bytes rest))

module _ (checked : Bool) (lossy : Bytes → Bytes) where
  -- A struct inside the segment is what is decoded, whatever the eight bytes of the frame are.
  pub decode_framed :
      (frame : Bytes) (root : ℕ) (ws : List ℕ) {s : ℕ}
      → length frame ≡ 8
      → root < 2 ^ 64
      → length ws < 2 ^ 32
      → 0 < length ws
      → root % 4 ≡ 0
      → target 0 root ≡ some s
      → s + root / 2 ^ 32 % 2 ^ 16 + root / 2 ^ 48 ≤ suc (length ws)
      → decode_connection_response checked lossy (frame ++ as_bytes (root ∷ ws))
        ≡ decode_struct checked lossy (s * 8) (root / 2 ^ 32 % 2 ^ 16) (as_bytes (root ∷ ws))
  unfolding decode_connection_response
  decode_framed frame root ws {s} h small short some_words kind e inside =
      let F : Bytes = as_bytes (root ∷ ws) in
      let size : length F ≡ suc (length ws) * 8 = length-as_bytes (root ∷ ws) in
      let enough : ltb (length (frame ++ F)) 24 ≡ false =
        ground (arith, length-append {0} frame F) in
      let room : ltb (length F) 8 ≡ false = ground arith in
      let is_struct : (root % 4 == 0) ≡ true = ground arith in
      let d : ℕ = root / 2 ^ 32 % 2 ^ 16 in
      let p : root / 2 ^ 48 % 2 ^ 16 ≡ root / 2 ^ 48 = omega arith in
      let first = usize_lem checked (s * 8) (omega arith) in
      let second = usize_lem checked (s * 8 + (d + root / 2 ^ 48) * 8) (omega arith) in
      let fits : ltb (length F) (s * 8 + (d + root / 2 ^ 48) * 8) ≡ false = ground arith in
      rw
        (
          drop_header frame F h,
          enough,
          room,
          word_at checked lossy [] ws root,
          from_le-to_le 8 root small,
          is_struct,
          struct_start_lem root e,
          first,
          p,
          second,
          fits,
        )
        refl

  tag_value : (w : ℕ) → from_le (to_le 2 w) ≡ w % 2 ^ 16
  unfolding from_le to_le
  tag_value w = omega arith

  -- A struct behind `front` with one data word `w` and the pointer `a`, and the tag 0: the call fails
  -- with what the pointer reads as.
  pub error_lem :
      (front post : List ℕ) (w a : ℕ)
      → w % 2 ^ 16 ≡ 0
      → a < 2 ^ 64
      → (a % 4 == 1 && a / 2 ^ 32 % 8 == 2) ≡ false
      → decode_struct checked lossy (length front * 8) 1 (as_bytes (front ++ w ∷ a ∷ post)) ≡ (
          returns_or (without_text checked lossy a) unknown_error >>= λ cause.
          fails (rejected cause))
  unfolding decode_struct
  error_lem front post w a none_set small other =
      let seg = as_bytes (front ++ w ∷ a ∷ post) in
      let zero_yes : (w % 2 ^ 16 == 0) ≡ true = ground arith in
      rw (struct_data_lem front (w ∷ a ∷ post), tag_lem w (a ∷ post), tag_value w, zero_yes)
        (ap (λ o. returns_or o unknown_error >>= λ cause. fails (rejected cause))
          (read_text_ptr-without_text checked lossy (length front * 8) 0 8 (w ∷ []) post a seg small
            refl other))

  -- The same with the tag 1: the word `b` behind the struct is taken for a pointer.
  pub details_lem :
      (front post : List ℕ) (w a b : ℕ)
      → w % 2 ^ 16 ≡ 1
      → b < 2 ^ 64
      → (b % 4 == 1 && b / 2 ^ 32 % 8 == 2) ≡ false
      → decode_struct checked lossy (length front * 8) 1 (as_bytes (front ++ w ∷ a ∷ b ∷ post))
        ≡ returns_or (without_text checked lossy b) unknown
  unfolding decode_struct
  details_lem front post w a b one small other =
      let seg = as_bytes (front ++ w ∷ a ∷ b ∷ post) in
      let zero_no : (w % 2 ^ 16 == 0) ≡ false = ground arith in
      let one_yes : (w % 2 ^ 16 == 1) ≡ true = ground arith in
      rw
        (
          struct_data_lem front (w ∷ a ∷ b ∷ post),
          tag_lem w (a ∷ b ∷ post),
          tag_value w,
          zero_no,
          one_yes,
        )
        (ap (λ o. returns_or o unknown)
          (read_text_ptr-without_text checked lossy (length front * 8) 1 8 (w ∷ a ∷ []) post b seg
            small refl other))
