-- ===== src/Schema/ClientInfo.antt =====
-- The reader of `client_info` in src/tunnelrpc_capnp.rs.
pub mod Builder
pub mod Described
pub mod Written
use argo_rust.Base.{ℕ, Bool, not, Str, Result, List}
use argo_rust.CapnpRpc.Bytes.{Bytes}
use argo_rust.Schema.{Layout, StructSize}

abbrev pub type_id : ℕ
type_id = 0x83ced0145b2f114b

abbrev pub struct_size : StructSize
struct_size = record { data_words = 0; pointers = 4 }

module _ (l : Layout) where
  open l use {Struct, Pointer, get_pointer_field, is_null, get_struct, get_text, get_data, get_list}

  abbrev pub from_pointer : Pointer → Result Str Struct
  from_pointer p = get_struct p

  abbrev pub get_client_id : Struct → Result Str Bytes
  get_client_id s = get_data (get_pointer_field s 0)

  abbrev pub has_client_id : Struct → Bool
  has_client_id s = not (is_null (get_pointer_field s 0))

  abbrev pub get_features : Struct → Result Str (List Pointer)
  get_features s = get_list (get_pointer_field s 1)

  abbrev pub has_features : Struct → Bool
  has_features s = not (is_null (get_pointer_field s 1))

  abbrev pub get_version : Struct → Result Str Bytes
  get_version s = get_text (get_pointer_field s 2)

  abbrev pub has_version : Struct → Bool
  has_version s = not (is_null (get_pointer_field s 2))

  abbrev pub get_arch : Struct → Result Str Bytes
  get_arch s = get_text (get_pointer_field s 3)

  abbrev pub has_arch : Struct → Bool
  has_arch s = not (is_null (get_pointer_field s 3))
