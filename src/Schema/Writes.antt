-- ===== src/Schema/Writes.antt =====
-- The laws of the layout module of the crate capnp, and what a struct reads as after writes.
pub mod ReadBack
use argo_rust.Base.{
  ℕ, zero, suc, ◌+◌, ◌*◌, ◌^◌, ◌≤◌, ◌<◌, Bool, true, false, List, [], ◌∷◌, Result, ok, ◌≡◌, ◌≢◌,
  ◌⊎◌, inl, inr, refl, sym, ap, ltb, leb, ◌==◌, ◌&&◌, ◌||◌, if◌then◌else◌, arith, ◌∙◌, All,
  Bool-cases, ltb→lt, leb→le, ==_iff,
}
use argo_rust.CapnpRpc.Bytes.{Bytes}
use argo_rust.Schema.{
  Layout, StructSize, Primitive, width, boolean, i8, i16, i32, i64, u8, u16, u32, u64,
}

-- Two fields of the data section have no bit in common.
abbrev pub Apart : Primitive → ℕ → Primitive → ℕ → Type 0
Apart p i q j = (width p * (i + 1) ≤ width q * j) ⊎ (width q * (j + 1) ≤ width p * i)

module _ (l : Layout) where
  open l use {
    Struct, Pointer, init_struct, get_pointer_field, set_pointer_field, get_data_field,
    set_data_field, is_null, null, to_struct, to_text, to_data, to_list, get_struct, get_text,
    get_data, get_list, set_struct, set_list,
  }

  -- A message that was built reads back: pointers and data fields that a struct has keep what was
  -- written last, and a pointer gives what it was set to.
  pub record LayoutLaws : Type 0 where
    pub size : Struct → StructSize
    pub size-init_struct : (z : StructSize) → size (init_struct z) ≡ z
    pub size-set_pointer_field :
        (s : Struct) (i : ℕ) (p : Pointer) → size (set_pointer_field s i p) ≡ size s
    pub size-set_data_field :
        (t : Primitive) (s : Struct) (i v : ℕ) → size (set_data_field t s i v) ≡ size s
    pub get_pointer_field-set_pointer_field :
        (s : Struct) (i : ℕ) (p : Pointer)
        → i < StructSize.pointers (size s)
        → get_pointer_field (set_pointer_field s i p) i ≡ p
    pub get_pointer_field-set_other :
        (s : Struct) (i : ℕ) (p : Pointer) (j : ℕ)
        → i ≢ j
        → get_pointer_field (set_pointer_field s i p) j ≡ get_pointer_field s j
    pub get_pointer_field-set_data_field :
        (t : Primitive) (s : Struct) (i v j : ℕ)
        → get_pointer_field (set_data_field t s i v) j ≡ get_pointer_field s j
    pub get_data_field-set_pointer_field :
        (t : Primitive) (s : Struct) (i j : ℕ) (p : Pointer)
        → get_data_field t (set_pointer_field s j p) i ≡ get_data_field t s i
    pub get_data_field-set_data_field :
        (t : Primitive) (s : Struct) (i v : ℕ)
        → width t * (i + 1) ≤ 64 * StructSize.data_words (size s)
        → v < 2 ^ width t
        → get_data_field t (set_data_field t s i v) i ≡ v
    pub get_data_field-set_other :
        (t : Primitive) (s : Struct) (i v : ℕ) (u : Primitive) (j : ℕ)
        → Apart t i u j
        → get_data_field u (set_data_field t s i v) j ≡ get_data_field u s j
    pub get_pointer_field-init_struct :
        (z : StructSize) (i : ℕ) → get_pointer_field (init_struct z) i ≡ null
    pub get_data_field-init_struct :
        (t : Primitive) (z : StructSize) (i : ℕ) → get_data_field t (init_struct z) i ≡ 0
    pub get_struct-to_struct : (s : Struct) → get_struct (to_struct s) ≡ ok s
    pub get_text-to_text : (b : Bytes) → get_text (to_text b) ≡ ok b
    pub get_data-to_data : (b : Bytes) → get_data (to_data b) ≡ ok b
    pub get_list-to_list : (ps : List Pointer) → get_list (to_list ps) ≡ ok ps
    pub set_struct_lem : (s : Struct) → set_struct s ≡ ok (to_struct s)
    pub set_list_lem : (ps : List Pointer) → set_list ps ≡ ok (to_list ps)
    pub is_null-null : is_null null ≡ true
    pub is_null-to_struct : (s : Struct) → is_null (to_struct s) ≡ false

pub data Write (l : Layout) : Type 0 where
  pointer : ℕ → Layout.Pointer l → Write l
  data_field : Primitive → ℕ → ℕ → Write l

abbrev pub rank : Primitive → ℕ
rank boolean = 0
rank i8 = 1
rank i16 = 2
rank i32 = 3
rank i64 = 4
rank u8 = 5
rank u16 = 6
rank u32 = 7
rank u64 = 8

abbrev pub same_field : Primitive → ℕ → Primitive → ℕ → Bool
same_field t i u j = (rank t == rank u) && (i == j)

abbrev pub apart : Primitive → ℕ → Primitive → ℕ → Bool
apart t i u j = leb (width t * (i + 1)) (width u * j) || leb (width u * (j + 1)) (width t * i)

module _ (l : Layout) where
  open l use {
    Struct, Pointer, init_struct, get_pointer_field, set_pointer_field, get_data_field,
    set_data_field, null,
  }

  abbrev pub write : Struct → Write l → Struct
  write s (pointer i p) = set_pointer_field s i p
  write s (data_field t i v) = set_data_field t s i v

  abbrev pub write_all : Struct → List (Write l) → Struct
  write_all s [] = s
  write_all s (w ∷ ws) = write_all (write s w) ws

  -- The writes are at fields that a struct of the size has.
  abbrev pub is_inside : StructSize → Write l → Bool
  is_inside z (pointer i p) = ltb i (StructSize.pointers z)
  is_inside z (data_field t i v) = leb (width t * (i + 1)) (64 * StructSize.data_words z)

  abbrev pub are_inside : StructSize → List (Write l) → Bool
  are_inside z [] = true
  are_inside z (w ∷ ws) = is_inside z w && are_inside z ws

  -- The last value that is written at a pointer, or the one before.
  abbrev pub pointer_after : ℕ → Pointer → List (Write l) → Pointer
  pointer_after j p [] = p
  pointer_after j p (pointer i q ∷ ws) = pointer_after j (if i == j then q else p) ws
  pointer_after j p (data_field t i v ∷ ws) = pointer_after j p ws

  -- The same for a data field, which no other write may touch in part.
  abbrev pub number_after : Primitive → ℕ → ℕ → List (Write l) → ℕ
  number_after u j n [] = n
  number_after u j n (pointer i q ∷ ws) = number_after u j n ws
  number_after u j n (data_field t i v ∷ ws) =
      number_after u j (if same_field t i u j then v else n) ws

  abbrev pub is_clear : Primitive → ℕ → Write l → Bool
  is_clear u j (pointer i q) = true
  is_clear u j (data_field t i v) = same_field t i u j || apart t i u j

  abbrev pub are_clear : Primitive → ℕ → List (Write l) → Bool
  are_clear u j [] = true
  are_clear u j (w ∷ ws) = is_clear u j w && are_clear u j ws

  abbrev pub Fits : Write l → Type 0
  Fits (pointer i p) = 0 ≤ 0
  Fits (data_field t i v) = v < 2 ^ width t
