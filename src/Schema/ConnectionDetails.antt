-- ===== src/Schema/ConnectionDetails.antt =====
-- The reader of `connection_details` in src/tunnelrpc_capnp.rs.
pub mod Builder
pub mod Described
pub mod Written
use argo_rust.Base.{ℕ, Bool, not, Str, Result}
use argo_rust.CapnpRpc.Bytes.{Bytes}
use argo_rust.Schema.{Layout, StructSize, get_bool_field}

abbrev pub type_id : ℕ
type_id = 0xb5f39f082b9ac18a

abbrev pub struct_size : StructSize
struct_size = record { data_words = 1; pointers = 2 }

module _ (l : Layout) where
  open l use {Struct, Pointer, get_pointer_field, is_null, get_struct, get_text, get_data}

  abbrev pub from_pointer : Pointer → Result Str Struct
  from_pointer p = get_struct p

  abbrev pub get_uuid : Struct → Result Str Bytes
  get_uuid s = get_data (get_pointer_field s 0)

  abbrev pub has_uuid : Struct → Bool
  has_uuid s = not (is_null (get_pointer_field s 0))

  abbrev pub get_location_name : Struct → Result Str Bytes
  get_location_name s = get_text (get_pointer_field s 1)

  abbrev pub has_location_name : Struct → Bool
  has_location_name s = not (is_null (get_pointer_field s 1))

  abbrev pub get_tunnel_is_remotely_managed : Struct → Bool
  get_tunnel_is_remotely_managed s = get_bool_field l s 0
