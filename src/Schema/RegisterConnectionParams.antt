-- ===== src/Schema/RegisterConnectionParams.antt =====
-- The reader of `registration_server::register_connection_params` in src/tunnelrpc_capnp.rs.
pub mod Builder
pub mod Described
pub mod Written
use argo_rust.Base.{ℕ, Bool, not, Str, Result}
use argo_rust.CapnpRpc.Bytes.{Bytes}
use argo_rust.Schema.{Layout, StructSize, u8}
use argo_rust.Schema.ConnectionOptions
use argo_rust.Schema.TunnelAuth

abbrev pub type_id : ℕ
type_id = 0xe6646dec8feaa6ee

abbrev pub struct_size : StructSize
struct_size = record { data_words = 1; pointers = 3 }

module _ (l : Layout) where
  open l use {Struct, Pointer, get_pointer_field, get_data_field, is_null, get_struct, get_data}

  abbrev pub from_pointer : Pointer → Result Str Struct
  from_pointer p = get_struct p

  abbrev pub get_auth : Struct → Result Str Struct
  get_auth s = TunnelAuth.from_pointer l (get_pointer_field s 0)

  abbrev pub has_auth : Struct → Bool
  has_auth s = not (is_null (get_pointer_field s 0))

  abbrev pub get_tunnel_id : Struct → Result Str Bytes
  get_tunnel_id s = get_data (get_pointer_field s 1)

  abbrev pub has_tunnel_id : Struct → Bool
  has_tunnel_id s = not (is_null (get_pointer_field s 1))

  abbrev pub get_conn_index : Struct → ℕ
  get_conn_index s = get_data_field u8 s 0

  abbrev pub get_options : Struct → Result Str Struct
  get_options s = ConnectionOptions.from_pointer l (get_pointer_field s 2)

  abbrev pub has_options : Struct → Bool
  has_options s = not (is_null (get_pointer_field s 2))
