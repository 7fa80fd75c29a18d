-- ===== src/Schema/Tag.antt =====
-- The reader of `tag` in src/tunnelrpc_capnp.rs.
pub mod Builder
pub mod Described
pub mod Written
use argo_rust.Base.{ℕ, Bool, not, Str, Result}
use argo_rust.CapnpRpc.Bytes.{Bytes}
use argo_rust.Schema.{Layout, StructSize}

abbrev pub type_id : ℕ
type_id = 0xcbd96442ae3bb01a

abbrev pub struct_size : StructSize
struct_size = record { data_words = 0; pointers = 2 }

module _ (l : Layout) where
  open l use {Struct, Pointer, get_pointer_field, is_null, get_struct, get_text}

  abbrev pub from_pointer : Pointer → Result Str Struct
  from_pointer p = get_struct p

  abbrev pub get_name : Struct → Result Str Bytes
  get_name s = get_text (get_pointer_field s 0)

  abbrev pub has_name : Struct → Bool
  has_name s = not (is_null (get_pointer_field s 0))

  abbrev pub get_value : Struct → Result Str Bytes
  get_value s = get_text (get_pointer_field s 1)

  abbrev pub has_value : Struct → Bool
  has_value s = not (is_null (get_pointer_field s 1))
