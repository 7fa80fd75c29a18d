-- ===== src/Schema/UnregisterUdpSessionParams.antt =====
-- The reader of `session_manager::unregister_udp_session_params` in src/tunnelrpc_capnp.rs.
pub mod Builder
pub mod Described
pub mod Written
use argo_rust.Base.{ℕ, Bool, not, Str, Result}
use argo_rust.CapnpRpc.Bytes.{Bytes}
use argo_rust.Schema.{Layout, StructSize}

abbrev pub type_id : ℕ
type_id = 0x96b74375ce9b0ef6

abbrev pub struct_size : StructSize
struct_size = record { data_words = 0; pointers = 2 }

module _ (l : Layout) where
  open l use {Struct, Pointer, get_pointer_field, is_null, get_struct, get_text, get_data}

  abbrev pub from_pointer : Pointer → Result Str Struct
  from_pointer p = get_struct p

  abbrev pub get_session_id : Struct → Result Str Bytes
  get_session_id s = get_data (get_pointer_field s 0)

  abbrev pub has_session_id : Struct → Bool
  has_session_id s = not (is_null (get_pointer_field s 0))

  abbrev pub get_message : Struct → Result Str Bytes
  get_message s = get_text (get_pointer_field s 1)

  abbrev pub has_message : Struct → Bool
  has_message s = not (is_null (get_pointer_field s 1))
