-- ===== src/CapnpRpc/Decode.antt =====
-- `decode_connection_response` and `read_text_ptr` of src/capnp_rpc.rs, with the panics of slices
-- and of arithmetic. `checked` says whether overflow checks are on, as in a debug build.
pub mod Text
pub mod Response
pub mod Answer
use mathlib.Core.Bool.{Bool, true, false}
use argo_rust.Base.{
  ℕ, zero, suc, ◌+◌, ◌-◌, ◌*◌, ◌/◌, ◌%◌, ◌^◌, List, [], ◌∷◌, ◌++◌, length, drop, take, ltb, leb,
  ◌==◌, if◌then◌else◌,
}
use argo_rust.CapnpRpc.Bytes.{Bytes, from_le}

pub data DecodeError : Type 0 where
  too_short : ℕ → DecodeError
  no_root : DecodeError
  not_a_struct : ℕ → DecodeError
  struct_out_of_bounds : DecodeError
  rejected : Bytes → DecodeError
  unknown_discriminant : ℕ → DecodeError
  ptr_out_of_bounds : DecodeError
  not_a_list : DecodeError
  not_bytes : DecodeError
  text_out_of_bounds : DecodeError

-- A value, an error that the caller can handle, or a panic.
pub data Outcome {ℓ} (A : Type ℓ) : Type ℓ where
  returns : A → Outcome A
  fails : DecodeError → Outcome A
  panics : Outcome A

infixl 5 ◌>>=◌
abbrev pub ◌>>=◌ {ℓ κ} : {A : Type ℓ} {B : Type κ} → Outcome A → (A → Outcome B) → Outcome B
returns a >>= f = f a
fails e >>= f = fails e
panics >>= f = panics

-- `Result::unwrap_or_else` with a constant.
abbrev pub returns_or {ℓ} : {A : Type ℓ} → Outcome A → A → Outcome A
returns_or (returns a) d = returns a
returns_or (fails e) d = returns d
returns_or panics d = panics

-- The result of an operation on `usize`, from its exact value.
abbrev pub usize : Bool → ℕ → Outcome ℕ
usize checked n =
    if ltb n (2 ^ 64) then returns n else if checked then panics else returns (n % 2 ^ 64)

-- `bytes[from..to]`.
abbrev pub slice : Bytes → ℕ → ℕ → Outcome Bytes
slice bytes from to =
    if leb from to
    then if leb to (length bytes) then returns (take (to - from) (drop from bytes)) else panics
    else panics

-- `((p as i32) >> 2) as i64`, in two's complement.
abbrev pub offset_of : ℕ → ℕ
offset_of p = let o = p / 4 % 2 ^ 30 in if ltb o (2 ^ 29) then o else o + (2 ^ 64 - 2 ^ 30)

abbrev pub unknown_error : Bytes
unknown_error = 117 ∷ 110 ∷ 107 ∷ 110 ∷ 111 ∷ 119 ∷ 110 ∷ 32 ∷ 101 ∷ 114 ∷ 114 ∷ 111 ∷ 114 ∷ []

abbrev pub unknown : Bytes
unknown = 117 ∷ 110 ∷ 107 ∷ 110 ∷ 111 ∷ 119 ∷ 110 ∷ []

-- `lossy` is `String::from_utf8_lossy`, on bytes.
module _ (checked : Bool) (lossy : Bytes → Bytes) where
  -- The part of `read_text_ptr` behind the checks of the pointer's kind.
  abbrev pub text_bytes : ℕ → ℕ → Bytes → Outcome Bytes
  text_bytes ptr ptr_word_in_seg seg = do
    let elem_count = ptr / 2 ^ 35
    let target_word = (ptr_word_in_seg + 1 + offset_of ptr) % 2 ^ 64
    target_byte ← usize checked (target_word * 8)
    end ← usize checked (target_byte + elem_count)
    if ltb (length seg) end then fails text_out_of_bounds else (do
      stop ← usize checked (target_byte + (elem_count - 1))
      bytes ← slice seg target_byte stop
      returns (lossy bytes))

  -- `start` is where `struct_data` begins in `seg`: the difference of the two addresses.
  unfoldable pub read_text_ptr : ℕ → Bytes → ℕ → ℕ → Bytes → Outcome Bytes
  unfolding from_le
  read_text_ptr start struct_data ptrs_start slot seg =
      let ptr_offset = ptrs_start + slot * 8 in
      let ptr = from_le (take 8 (drop ptr_offset struct_data)) in
      if ltb (length struct_data) (ptr_offset + 8)
      then fails ptr_out_of_bounds
      else if ptr == 0
      then returns []
      else if ptr % 4 == 1
      then if ptr / 2 ^ 32 % 8 == 2
        then text_bytes ptr ((8 + start + ptr_offset) / 8) seg
        else fails not_bytes
      else fails not_a_list

  unfoldable pub decode_struct : ℕ → ℕ → Bytes → Outcome Bytes
  unfolding from_le
  decode_struct struct_start data_words seg = do
    struct_data ← slice seg struct_start (length seg)
    tag ← slice struct_data 0 2
    let discriminant = from_le tag
    let ptrs_start = data_words * 8
    if discriminant == 0
        then (do
          cause ← returns_or (read_text_ptr struct_start struct_data ptrs_start 0 seg) unknown_error
          fails (rejected cause))
        else if discriminant == 1
        then returns_or (read_text_ptr struct_start struct_data ptrs_start 1 seg) unknown
        else fails (unknown_discriminant discriminant)

  unfoldable pub decode_connection_response : Bytes → Outcome Bytes
  unfolding from_le
  decode_connection_response bytes =
      let seg = drop 8 bytes in
      let root_ptr = from_le (take 8 seg) in
      let data_words = root_ptr / 2 ^ 32 % 2 ^ 16 in
      let ptr_count = root_ptr / 2 ^ 48 % 2 ^ 16 in
      if ltb (length bytes) 24
      then fails (too_short (length bytes))
      else if ltb (length seg) 8
      then fails no_root
      else if root_ptr % 4 == 0
      then (do
        struct_start ← usize checked ((1 + offset_of root_ptr) % 2 ^ 64 * 8)
        end ← usize checked (struct_start + (data_words + ptr_count) * 8)
        if ltb (length seg) end
            then fails struct_out_of_bounds
            else decode_struct struct_start data_words seg)
      else fails (not_a_struct (root_ptr % 4))
