-- ===== src/CapnpRpc/SegBuilder.antt =====
-- `SegBuilder` of src/capnp_rpc.rs: one segment as a vector of words, allocation at its end,
-- writes into it, and pointers. A method takes the builder and returns its result with the new
-- builder; an index out of bounds panics, which is `none`. Sizes are taken to fit a `usize`.
pub mod Pointers
pub mod Steps
use Prim.Native.Nat.{bit_and, bit_or}
use mathlib.Core.List.{foldl}
use argo_rust.Base.{
  ℕ, zero, suc, ◌+◌, ◌-◌, ◌*◌, ◌/◌, ◌%◌, ◌^◌, List, [], ◌∷◌, ◌++◌, Option, none, some, length,
  replicate, max,
}
use argo_rust.CapnpRpc.Bytes.{Bytes, to_le, from_le, as_bytes, store, write_at, copy_from_slice}

pub record StructAlloc : Type 0 where
  pub data_w : ℕ
  pub ptr_w : ℕ

pub record SegBuilder : Type 0 where
  pub words : List ℕ

abbrev pub Seg : Type 0 → Type 0
Seg A = SegBuilder → Option (A × SegBuilder)

abbrev pub continue :
    {A B : Type 0} → Option (A × SegBuilder) → (A → Seg B) → Option (B × SegBuilder)
continue none f = none
continue (some (a, s)) f = f a s

infixl 5 ◌>>=◌ ◌>>◌
abbrev pub ◌>>=◌ : {A B : Type 0} → Seg A → (A → Seg B) → Seg B
◌>>=◌ m f s = continue (m s) f

abbrev pub ◌>>◌ : {B : Type 0} → Seg (Unit {0}) → Seg B → Seg B
m >> k = m >>= λ _. k

abbrev pub pure : {A : Type 0} → A → Seg A
pure a s = some (a, s)

-- The builder with other words, where a write has not panicked.
abbrev pub put_words : Option (List ℕ) → Option (Unit {0} × SegBuilder)
put_words none = none
put_words (some ws) = some (tt, record { words = ws })

abbrev pub new : SegBuilder
new = record { words = [] }

unfoldable pub alloc : ℕ → Seg ℕ
alloc n s = some (length s.words, record { words = s.words ++ replicate n 0 })

unfoldable pub alloc_struct : ℕ → ℕ → Seg StructAlloc
unfolding alloc
alloc_struct data_words ptr_count = do
  w ← alloc (data_words + ptr_count)
  pure (record { data_w = w; ptr_w = w + data_words })

unfoldable pub write_bytes : ℕ → Bytes → Seg (Unit {0})
write_bytes word src s = put_words (write_at s.words (word * 8) src)

unfoldable pub alloc_text : Bytes → Seg ℕ
alloc_text b = do w ← alloc ((length b + 1 + 7) / 8); write_bytes w b; pure w

unfoldable pub alloc_data : Bytes → Seg ℕ
alloc_data d = do w ← alloc ((length d + 7) / 8); write_bytes w d; pure w

unfoldable pub alloc_ptr_list : ℕ → Seg ℕ
unfolding alloc
alloc_ptr_list count = alloc (max count 1)

-- `self.words[w..w + words.len()].copy_from_slice(words)` behind the allocation.
unfoldable pub alloc_raw : List ℕ → Seg ℕ
alloc_raw words = do
  w ← alloc (length words)
  (λ s. put_words (copy_from_slice s.words w words))
  pure w

unfoldable pub set_u8 : ℕ → ℕ → ℕ → Seg (Unit {0})
set_u8 word byte v s = put_words (write_at s.words (word * 8 + byte) (v ∷ []))

unfoldable pub set_u16 : ℕ → ℕ → ℕ → Seg (Unit {0})
set_u16 word byte v s = put_words (write_at s.words (word * 8 + byte) (to_le 2 v))

unfoldable pub set_u32 : ℕ → ℕ → ℕ → Seg (Unit {0})
set_u32 word byte v s = put_words (write_at s.words (word * 8 + byte) (to_le 4 v))

abbrev pub set_word : ℕ → ℕ → Seg (Unit {0})
set_word i v s = put_words (store s.words i v)

-- The first assignment, the `|` of the bytes, is overwritten by the second.
unfoldable pub set_u64 : ℕ → ℕ → ℕ → Seg (Unit {0})
set_u64 word byte v = do
  set_word word (foldl bit_or 0 (to_le 8 v))
  set_word word (from_le (to_le 8 v))

-- `(target_word as i64) - (ptr_word as i64) - 1`, as the bit pattern of the `i64`.
abbrev pub word_offset : ℕ → ℕ → ℕ
word_offset target_word ptr_word = (target_word + 2 ^ 64 - (ptr_word + 1)) % 2 ^ 64

-- `x << k` on 64 bits, and `x as u32`.
abbrev pub shl64 : ℕ → ℕ → ℕ
shl64 x k = x * 2 ^ k % 2 ^ 64

abbrev pub shl32 : ℕ → ℕ → ℕ
shl32 x k = x * 2 ^ k % 2 ^ 32

abbrev pub u32 : ℕ → ℕ
u32 x = x % 2 ^ 32

abbrev pub join_halves : ℕ → ℕ → ℕ
join_halves lo hi = bit_or lo (shl64 hi 32)

-- The word of a struct pointer with a given offset; type 0.
unfoldable pub struct_ptr : ℕ → ℕ → ℕ → ℕ
struct_ptr offset data_words ptr_count =
    let lo = u32 (bit_and (shl64 offset 2) 0xFFFF_FFFF) in
    let hi = bit_or data_words (shl32 ptr_count 16) in join_halves lo hi

-- The word of a list pointer; type 1, with the code of the element size.
unfoldable pub list_ptr : ℕ → ℕ → ℕ → ℕ
list_ptr offset len elem_size =
    let lo = u32 (bit_and (bit_or (shl64 offset 2) 1) 0xFFFF_FFFF) in
    let hi = bit_or (shl32 (u32 len) 3) elem_size in join_halves lo hi

unfoldable pub set_struct_ptr : ℕ → ℕ → ℕ → ℕ → ℕ → Seg (Unit {0})
set_struct_ptr ptr_base slot target_word data_words ptr_count =
    let ptr_word = ptr_base + slot in
    set_word ptr_word (struct_ptr (word_offset target_word ptr_word) data_words ptr_count)

unfoldable pub set_data_ptr : ℕ → ℕ → ℕ → ℕ → Seg (Unit {0})
set_data_ptr ptr_base slot target_word len =
    let ptr_word = ptr_base + slot in
    set_word ptr_word (list_ptr (word_offset target_word ptr_word) len 2)

unfoldable pub set_text_ptr : ℕ → ℕ → ℕ → ℕ → Seg (Unit {0})
unfolding set_data_ptr
set_text_ptr ptr_base slot target_word char_count =
    set_data_ptr ptr_base slot target_word char_count

unfoldable pub set_ptr_list_ptr : ℕ → ℕ → ℕ → ℕ → Seg (Unit {0})
set_ptr_list_ptr ptr_base slot target_word count =
    let ptr_word = ptr_base + slot in
    set_word ptr_word (list_ptr (word_offset target_word ptr_word) count 6)

unfoldable pub set_list_text_entry : ℕ → ℕ → ℕ → ℕ → Seg (Unit {0})
unfolding set_text_ptr
set_list_text_entry list_base index target_word char_count =
    set_text_ptr list_base index target_word char_count

-- `root_word as i64 - 1`, as a bit pattern, is the offset of the root pointer.
unfoldable pub finish : SegBuilder → ℕ → ℕ → ℕ → Bytes
unfolding to_le as_bytes struct_ptr
finish s root_word data_words ptr_count =
    let seg_size = u32 (1 + length s.words) in
    let root_ptr = struct_ptr ((root_word + 2 ^ 64 - 1) % 2 ^ 64) data_words ptr_count in
    to_le 4 0 ++ (to_le 4 seg_size ++ (to_le 8 root_ptr ++ as_bytes s.words))
