-- ===== src/CapnpRpc/Decode/Text.antt =====
-- Where `read_text_ptr` reads: one word behind the target of the pointer.
use mathlib.Core.Bool.{Bool, true, false}
use argo_rust.Base.{
  ℕ, ◌+◌, ◌-◌, ◌*◌, ◌/◌, ◌%◌, ◌^◌, ◌<◌, ◌≤◌, ◌≡◌, List, ◌∷◌, ◌++◌, some, inl, inr, Bool-cases,
  length, length-append, drop, take, ltb, leb, ◌==◌, ◌&&◌, [], if◌then◌else◌, arith,
}
use argo_rust.CapnpRpc.Bytes.{Bytes, as_bytes, to_le}
use argo_rust.CapnpRpc.Bytes.Laws.{length-as_bytes, as_bytes-append, from_le-to_le}
use argo_rust.CapnpRpc.Wire.{target}
use argo_rust.CapnpRpc.Wire.Holds.{drop-append}
use argo_rust.CapnpRpc.Decode.{
  Outcome, returns, fails, text_out_of_bounds, not_bytes, not_a_list, usize, slice, offset_of,
  text_bytes, read_text_ptr,
}

target_word_lem :
    (i p : ℕ) {t : ℕ}
    → i < 2 ^ 33
    → target i p ≡ some t
    → (i + 1 + 1 + offset_of p) % 2 ^ 64 ≡ t + 1
unfolding target
target_word_lem i p h e = ground arith

target-bound : (i p : ℕ) {t : ℕ} → i < 2 ^ 33 → target i p ≡ some t → t < 2 ^ 34
unfolding target
target-bound i p h e = ground arith

pub usize_lem : (checked : Bool) (n : ℕ) → n < 2 ^ 64 → usize checked n ≡ returns n
usize_lem true n h = ground arith
usize_lem false n h = ground arith

pub slice_lem :
    (bytes : Bytes) (from n : ℕ)
    → from + n ≤ length bytes
    → slice bytes from (from + n) ≡ returns (take n (drop from bytes))
slice_lem bytes from n h =
    let kept : from + n - from ≡ n = omega arith in
    let start : leb from (from + n) ≡ true = ground arith in
    let end : leb (from + n) (length bytes) ≡ true = ground arith in rw (kept, start, end)

module _ (checked : Bool) (lossy : Bytes → Bytes) where
  -- The text behind a pointer of `count` bytes to word `t`.
  abbrev pub text_after : ℕ → ℕ → Bytes → Outcome Bytes
  text_after t count seg =
      if ltb (length seg) ((t + 1) * 8 + count)
      then fails text_out_of_bounds
      else returns (lossy (take (count - 1) (drop ((t + 1) * 8) seg)))

  text_bytes_lem :
      (ptr i : ℕ) {t : ℕ} (seg : Bytes)
      → i < 2 ^ 33
      → ptr < 2 ^ 64
      → target i ptr ≡ some t
      → text_bytes checked lossy ptr (i + 1) seg ≡ text_after t (ptr / 2 ^ 35) seg
  text_bytes_lem ptr i {t} seg h k e =
      let count : ℕ = ptr / 2 ^ 35 in
      let first = usize_lem checked ((t + 1) * 8) (omega (arith, target-bound i ptr h e)) in
      let second =
        usize_lem checked ((t + 1) * 8 + count) (omega (arith, target-bound i ptr h e)) in
      let third =
        usize_lem checked ((t + 1) * 8 + (count - 1)) (omega (arith, target-bound i ptr h e)) in
      elim (Bool-cases (ltb (length seg) ((t + 1) * 8 + count))) [
        | inl out ↦ rw (target_word_lem i ptr h e, first, second, out)
        | inr fits ↦ rw (
          target_word_lem i ptr h e,
          first,
          second,
          fits,
          third,
          slice_lem seg ((t + 1) * 8) (count - 1) (ground arith),
        )
      ]

  pub word_at :
      (body post : List ℕ) (ptr : ℕ)
      → take 8 (drop (length body * 8) (as_bytes (body ++ ptr ∷ post))) ≡ to_le 8 ptr
  unfolding as_bytes to_le
  word_at body post ptr = rw (
    as_bytes-append body (ptr ∷ post),
    ← length-as_bytes body,
    drop-append (as_bytes body) (as_bytes (ptr ∷ post)),
  )

  long_enough :
      (body post : List ℕ) (ptr : ℕ)
      → ltb (length (as_bytes (body ++ ptr ∷ post))) (length body * 8 + 8) ≡ false
  long_enough body post ptr =
      ground (arith, length-as_bytes (body ++ ptr ∷ post), length-append {0} body (ptr ∷ post))

  -- The pointer behind `front` and `body`, read from the struct that begins behind `front`: what is
  -- read stands one word behind the target that the encoding gives the pointer. There is no panic.
  pub read_text_ptr_lem :
      (front body post : List ℕ) (ptr ptrs_start slot : ℕ) {t : ℕ}
      → ptr < 2 ^ 64
      → length front + length body < 2 ^ 33
      → ptrs_start + slot * 8 ≡ length body * 8
      → ptr % 4 ≡ 1
      → ptr / 2 ^ 32 % 8 ≡ 2
      → target (length front + length body) ptr ≡ some t
      → read_text_ptr checked lossy
          (length front * 8)
          (as_bytes (body ++ ptr ∷ post))
          ptrs_start
          slot
          (as_bytes (front ++ (body ++ ptr ∷ post)))
        ≡ text_after t (ptr / 2 ^ 35) (as_bytes (front ++ (body ++ ptr ∷ post)))
  unfolding read_text_ptr
  read_text_ptr_lem front body post ptr ptrs_start slot small short at kind size e =
      let F : List ℕ = front ++ (body ++ ptr ∷ post) in
      let nonzero : (ptr == 0) ≡ false = ground arith in
      let is_list : (ptr % 4 == 1) ≡ true = ground arith in
      let is_bytes : (ptr / 2 ^ 32 % 8 == 2) ≡ true = ground arith in
      let index : (8 + length front * 8 + length body * 8) / 8 ≡ length front + length body + 1 =
        omega arith in
      rw
        (
          at,
          long_enough body post ptr,
          word_at body post ptr,
          from_le-to_le 8 ptr small,
          nonzero,
          is_list,
          is_bytes,
          index,
        )
        (text_bytes_lem ptr (length front + length body) (as_bytes F) short small e)

  -- What `read_text_ptr` makes of a word that is no pointer to bytes.
  abbrev pub without_text : ℕ → Outcome Bytes
  without_text ptr =
      if ptr == 0 then returns [] else if ptr % 4 == 1 then fails not_bytes else fails not_a_list

  by_kind :
      (ptr : ℕ) (o : Outcome Bytes)
      → (ptr % 4 == 1 && ptr / 2 ^ 32 % 8 == 2) ≡ false
      → (if ptr == 0
          then returns []
          else if ptr % 4 == 1
          then if ptr / 2 ^ 32 % 8 == 2 then o else fails not_bytes
          else fails not_a_list)
        ≡ without_text ptr
  by_kind ptr o other = ground arith

  -- Such a word behind `body` is not followed, whatever the segment holds.
  pub read_text_ptr-without_text :
      (start slot ptrs_start : ℕ) (body post : List ℕ) (ptr : ℕ) (seg : Bytes)
      → ptr < 2 ^ 64
      → ptrs_start + slot * 8 ≡ length body * 8
      → (ptr % 4 == 1 && ptr / 2 ^ 32 % 8 == 2) ≡ false
      → read_text_ptr checked lossy start (as_bytes (body ++ ptr ∷ post)) ptrs_start slot seg
        ≡ without_text ptr
  unfolding read_text_ptr
  read_text_ptr-without_text start slot ptrs_start body post ptr seg small at other =
      rw (at, long_enough body post ptr, word_at body post ptr, from_le-to_le 8 ptr small)
        (by_kind ptr _ other)
