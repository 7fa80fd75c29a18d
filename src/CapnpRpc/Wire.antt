-- ===== src/CapnpRpc/Wire.antt =====
-- A reader of Cap'n Proto segments, written from the encoding's definition and not from
-- src/capnp_rpc.rs: pointers with signed 30-bit offsets, byte lists, texts with their NUL, lists
-- of pointers. `none` is a segment that does not hold what is asked for.
pub mod Holds
pub mod Followed
use mathlib.Core.Bool.{Bool}
use argo_rust.Base.{
  ℕ, zero, suc, ◌+◌, ◌-◌, ◌*◌, ◌/◌, ◌%◌, ◌^◌, List, [], ◌∷◌, ◌++◌, Option, none, some, and_then,
  length, get_elem?, take, drop, last, ltb, leb, ◌==◌, ◌&&◌, if◌then◌else◌,
}
use argo_rust.CapnpRpc.Bytes.{Bytes, as_bytes}

infixl 5 ◌>>=◌
abbrev pub ◌>>=◌ {ℓ κ} : {A : Type ℓ} {B : Type κ} → Option A → (A → Option B) → Option B
m >>= f = and_then m f

abbrev pub when {ℓ} : {A : Type ℓ} → Bool → Option A → Option A
when b o = if b then o else none

-- The word that a pointer at word `i` points to: its offset counts from the next word.
unfoldable pub target : ℕ → ℕ → Option ℕ
target i p =
    let o = p / 4 % 2 ^ 30 in
    if ltb o (2 ^ 29)
    then some (i + 1 + o)
    else if leb (2 ^ 30 - o) (i + 1)
    then some (i + 1 - (2 ^ 30 - o))
    else none

-- The position of the struct behind the pointer at word `i`, if it has the given sizes.
unfoldable pub struct_at : List ℕ → ℕ → ℕ → ℕ → Option ℕ
struct_at ws i data_words ptr_count = do
  p ← get_elem? ws i
  t ← target i p
  when
      (p % 4 == 0
        && p / 2 ^ 32 % 2 ^ 16 == data_words
        && p / 2 ^ 48 == ptr_count
        && leb (t + data_words + ptr_count) (length ws))
      (some t)

-- The position and count of the list behind the pointer at word `i`, with its element size.
unfoldable pub list_at : List ℕ → ℕ → ℕ → Option (ℕ × ℕ)
list_at ws i elem_size = do
  p ← get_elem? ws i
  t ← target i p
  when (p % 4 == 1 && p / 2 ^ 32 % 8 == elem_size) (some (t, p / 2 ^ 35))

unfoldable pub data_at : List ℕ → ℕ → Option Bytes
data_at ws i = do
  (t, count) ← list_at ws i 2
  when (leb (t * 8 + count) (length ws * 8)) (some (take count (drop (t * 8) (as_bytes ws))))

-- A text is a list of bytes that ends in NUL, which is not part of it.
unfoldable pub text_at : List ℕ → ℕ → Option Bytes
text_at ws i = do
  bytes ← data_at ws i
  end ← last bytes
  when (end == 0) (some (take (length bytes - 1) bytes))

unfoldable pub texts_from : List ℕ → ℕ → ℕ → Option (List Bytes)
texts_from ws t zero = some []
texts_from ws t (suc count) = do
  text ← text_at ws t
  rest ← texts_from ws (t + 1) count
  some (text ∷ rest)

unfoldable pub texts_at : List ℕ → ℕ → Option (List Bytes)
texts_at ws i = do (t, count) ← list_at ws i 6; texts_from ws t count

-- The byte `k` of the word at `i`.
unfoldable pub u8_at : List ℕ → ℕ → ℕ → Option ℕ
u8_at ws i k = do w ← get_elem? ws i; some (w / 256 ^ k % 256)
