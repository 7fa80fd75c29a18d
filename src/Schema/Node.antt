-- ===== src/Schema/Node.antt =====
-- A reader of the schema nodes that src/tunnelrpc_capnp.rs holds encoded, written from schema.capnp
-- of Cap'n Proto, and the members that a node gives a struct.
use argo_rust.Base.{
  ℕ, zero, suc, ◌+◌, ◌-◌, ◌*◌, ◌/◌, ◌%◌, ◌^◌, Bool, true, false, List, [], ◌∷◌, map, Option, none,
  some, some_or, Str, Result, get_elem?, leb, length, ◌==◌, ◌&&◌, if◌then◌else◌, ◌≡◌,
}
use argo_rust.CapnpRpc.Bytes.{Bytes}
use argo_rust.CapnpRpc.Wire.{struct_at, list_at, text_at, ◌>>=◌, when}
use argo_rust.Schema.{
  Layout, StructSize, Primitive, i8, i16, i32, i64, u8, u16, u32, u64, get_bool_field,
}

-- The word of eight bytes.
abbrev pub word : ℕ → ℕ → ℕ → ℕ → ℕ → ℕ → ℕ → ℕ → ℕ
word a b c d e f g h =
    a + 256 * (b + 256 * (c + 256 * (d + 256 * (e + 256 * (f + 256 * (g + 256 * h))))))

-- The types that the nodes use; a struct and an enum by the id of their own node.
pub data FieldType : Type 0 where
  bool_type : FieldType
  primitive : Primitive → FieldType
  text_type : FieldType
  data_type : FieldType
  text_list : FieldType
  enum_type : ℕ → FieldType
  struct_type : ℕ → FieldType
  other_type : FieldType

-- A slot has a type and an offset in units of it; a group shares the struct.
pub data Place : Type 0 where
  slot : FieldType → ℕ → Place
  group : ℕ → Place

pub record Field : Type 0 where
  pub name : Bytes
  pub tag : Option ℕ
  pub place : Place

pub record Node : Type 0 where
  pub id : ℕ
  pub size : StructSize
  pub tag_offset : ℕ
  pub fields : List Field

-- The types with the tags 0 to 13.
abbrev plain_types : List FieldType
plain_types =
    other_type
    ∷ bool_type
    ∷ primitive i8
    ∷ primitive i16
    ∷ primitive i32
    ∷ primitive i64
    ∷ primitive u8
    ∷ primitive u16
    ∷ primitive u32
    ∷ primitive u64
    ∷ other_type
    ∷ other_type
    ∷ text_type
    ∷ data_type
    ∷ []

-- The type with the tag, the id that a node of its own has, and the type of a list's elements.
abbrev with_tag : ℕ → ℕ → ℕ → FieldType
with_tag tag id e =
    if tag == 14 && e == 12
    then text_list
    else if tag == 15
    then enum_type id
    else if tag == 16
    then struct_type id
    else some_or (get_elem? plain_types tag) other_type

-- The tag of the type behind the pointer at word `i`; 0 where there is none.
abbrev element_tag : List ℕ → ℕ → Option ℕ
element_tag ws i = do
  p ← get_elem? ws i
  if p == 0 then some 0 else (do t ← struct_at ws i 3 1; tag ← get_elem? ws t; some (tag % 2 ^ 16))

abbrev type_at : List ℕ → ℕ → Option FieldType
type_at ws i = do
  t ← struct_at ws i 3 1
  tag ← get_elem? ws t
  id ← get_elem? ws (t + 1)
  e ← element_tag ws (t + 3)
  some (with_tag (tag % 2 ^ 16) id e)

-- A discriminant is stored with its bits flipped, so that 0 stands for none.
abbrev tag_of : ℕ → Option ℕ
tag_of zero = none
tag_of (suc n) = some (2 ^ 16 - 1 - suc n)

abbrev place_at : List ℕ → ℕ → ℕ → Option Place
place_at ws f kind =
    if kind == 0
    then (do head ← get_elem? ws f; ty ← type_at ws (f + 5); some (slot ty (head / 2 ^ 32)))
    else if kind == 1
    then (do id ← get_elem? ws (f + 2); some (group id))
    else none

-- `count` fields of three data words and four pointers from word `f`.
abbrev fields_from : List ℕ → ℕ → ℕ → Option (List Field)
fields_from ws f zero = some []
fields_from ws f (suc count) = do
  head ← get_elem? ws f
  kind ← get_elem? ws (f + 1)
  label ← text_at ws (f + 3)
  where_ ← place_at ws f (kind % 2 ^ 16)
  rest ← fields_from ws (f + 7) count
  some (record { name = label; tag = tag_of (head / 2 ^ 16 % 2 ^ 16); place = where_ } ∷ rest)

-- The list behind the pointer at word `i`: a tag word with the count and the sizes, then the fields.
abbrev fields_at : List ℕ → ℕ → Option (List Field)
fields_at ws i = do
  p ← get_elem? ws i
  if p == 0 then some [] else (do
    (t, words) ← list_at ws i 7
    tag ← get_elem? ws t
    when
        (tag / 2 ^ 32 == 3 + 4 * 2 ^ 16
          && words == 7 * (tag % 2 ^ 32 / 4)
          && leb (t + 1 + words) (length ws))
        (fields_from ws (t + 1) (tag % 2 ^ 32 / 4)))

-- A node of a struct: the kind 1 at bit 96 of its data section.
abbrev pub read_node : List ℕ → Option Node
read_node ws = do
  t ← struct_at ws 0 5 6
  id ← get_elem? ws t
  sizes ← get_elem? ws (t + 1)
  counts ← get_elem? ws (t + 3)
  union_ ← get_elem? ws (t + 4)
  fields ← fields_at ws (t + 8)
  when (sizes / 2 ^ 32 % 2 ^ 16 == 1) (
      some record {
        id = id;
        size = record { data_words = sizes / 2 ^ 48; pointers = counts % 2 ^ 16 };
        tag_offset = union_ % 2 ^ 32;
        fields = fields;
      })

-- `RawStructSchema`: an index past the list of types is a panic of `get_field_types`.
pub record RawSchema : Type 0 where
  pub encoded_node : List ℕ
  pub field_types : List FieldType
  pub nonunion_members : List ℕ
  pub members_by_discriminant : List ℕ

abbrev type_of : Place → FieldType
type_of (slot ty i) = ty
type_of (group id) = struct_type id

abbrev is_none {ℓ} : {A : Type ℓ} → Option A → Bool
is_none none = true
is_none (some a) = false

-- The indices of the fields outside the union, from index `i`.
abbrev untagged_from : ℕ → List Field → List ℕ
untagged_from i [] = []
untagged_from i (f ∷ fs) =
    if is_none (Field.tag f) then i ∷ untagged_from (i + 1) fs else untagged_from (i + 1) fs

abbrev add_tag : Option ℕ → ℕ → List (ℕ × ℕ) → List (ℕ × ℕ)
add_tag none i rest = rest
add_tag (some d) i rest = (d, i) ∷ rest

-- The tags of the fields of the union, with their indices from `i`.
abbrev tagged_from : ℕ → List Field → List (ℕ × ℕ)
tagged_from i [] = []
tagged_from i (f ∷ fs) = add_tag (Field.tag f) i (tagged_from (i + 1) fs)

abbrev numbered : ℕ → List ℕ → List (ℕ × ℕ)
numbered d [] = []
numbered d (i ∷ is) = (d, i) ∷ numbered (d + 1) is

-- What a member of a struct reads as.
pub data Value (l : Layout) : Type 0 where
  flag : Bool → Value l
  number : Primitive → ℕ → Value l
  enumerant : ℕ → ℕ → Value l
  text : Result Str Bytes → Value l
  bytes : Result Str Bytes → Value l
  texts : Result Str (List (Layout.Pointer l)) → Value l
  child : ℕ → Result Str (Layout.Struct l) → Value l
  part : ℕ → Layout.Struct l → Value l
  unread : Value l

module _ (l : Layout) where
  open l use {Struct, get_pointer_field, get_data_field, get_struct, get_text, get_data, get_list}

  abbrev value : Place → Struct → Value l
  value (group id) s = part id s
  value (slot bool_type i) s = flag (get_bool_field l s i)
  value (slot (primitive p) i) s = number p (get_data_field p s i)
  value (slot (enum_type id) i) s = enumerant id (get_data_field u16 s i)
  value (slot text_type i) s = text (get_text (get_pointer_field s i))
  value (slot data_type i) s = bytes (get_data (get_pointer_field s i))
  value (slot text_list i) s = texts (get_list (get_pointer_field s i))
  value (slot (struct_type id) i) s = child id (get_struct (get_pointer_field s i))
  value (slot other_type i) s = unread

  -- A member of the union is there only under its tag.
  abbrev tagged : Option ℕ → ℕ → Place → Struct → Option (Value l)
  tagged none offset p s = some (value p s)
  tagged (some tag) offset p s =
      if get_data_field u16 s offset == tag then some (value p s) else none

  abbrev member : ℕ → Struct → Field → Bytes × Option (Value l)
  member offset s f = (Field.name f, tagged (Field.tag f) offset (Field.place f) s)

  abbrev pub Members : Type 0
  Members = List (Bytes × Option (Value l))

  -- The members of a struct as its node gives them, with their names.
  abbrev pub members : Node → Struct → Members
  members n s = map (member (Node.tag_offset n) s) (Node.fields n)

  -- The encoded node reads, has the id, the sizes, the types and the places of the fields in the
  -- raw schema, and gives the struct the members.
  abbrev Describes : RawSchema → ℕ → StructSize → Struct → Members → Option Node → Type 0
  Describes raw id size s ms none = true ≡ false
  Describes raw id size s ms (some n) =
      (Node.id n ≡ id)
      × (Node.size n ≡ size)
      × (map (λ f. type_of (Field.place f)) (Node.fields n) ≡ RawSchema.field_types raw)
      × (untagged_from 0 (Node.fields n) ≡ RawSchema.nonunion_members raw)
      × (tagged_from 0 (Node.fields n) ≡ numbered 0 (RawSchema.members_by_discriminant raw))
      × (members n s ≡ ms)

  abbrev pub IsDescribedBy : RawSchema → ℕ → StructSize → Struct → Members → Type 0
  IsDescribedBy raw id size s ms =
      Describes raw id size s ms (read_node (RawSchema.encoded_node raw))
