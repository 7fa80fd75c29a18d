-- ===== src/Schema/ConnectionOptions.antt =====
-- The reader of `connection_options` in src/tunnelrpc_capnp.rs.
pub mod Builder
pub mod Described
pub mod Written
use argo_rust.Base.{ℕ, Bool, not, Str, Result}
use argo_rust.CapnpRpc.Bytes.{Bytes}
use argo_rust.Schema.{Layout, StructSize, u8, get_bool_field}
use argo_rust.Schema.ClientInfo

abbrev pub type_id : ℕ
type_id = 0xb4bf9861fe035d04

abbrev pub struct_size : StructSize
struct_size = record { data_words = 1; pointers = 2 }

module _ (l : Layout) where
  open l use {Struct, Pointer, get_pointer_field, get_data_field, is_null, get_struct, get_data}

  abbrev pub from_pointer : Pointer → Result Str Struct
  from_pointer p = get_struct p

  abbrev pub get_client : Struct → Result Str Struct
  get_client s = ClientInfo.from_pointer l (get_pointer_field s 0)

  abbrev pub has_client : Struct → Bool
  has_client s = not (is_null (get_pointer_field s 0))

  abbrev pub get_origin_local_ip : Struct → Result Str Bytes
  get_origin_local_ip s = get_data (get_pointer_field s 1)

  abbrev pub has_origin_local_ip : Struct → Bool
  has_origin_local_ip s = not (is_null (get_pointer_field s 1))

  abbrev pub get_replace_existing : Struct → Bool
  get_replace_existing s = get_bool_field l s 0

  abbrev pub get_compression_quality : Struct → ℕ
  get_compression_quality s = get_data_field u8 s 1

  abbrev pub get_num_previous_attempts : Struct → ℕ
  get_num_previous_attempts s = get_data_field u8 s 2
