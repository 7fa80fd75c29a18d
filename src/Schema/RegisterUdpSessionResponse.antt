-- ===== src/Schema/RegisterUdpSessionResponse.antt =====
-- The reader of `register_udp_session_response` in src/tunnelrpc_capnp.rs.
pub mod Builder
pub mod Described
pub mod Written
use argo_rust.Base.{ℕ, Bool, not, Str, Result}
use argo_rust.CapnpRpc.Bytes.{Bytes}
use argo_rust.Schema.{Layout, StructSize}

abbrev pub type_id : ℕ
type_id = 0xab6d5210c1f26687

abbrev pub struct_size : StructSize
struct_size = record { data_words = 0; pointers = 2 }

module _ (l : Layout) where
  open l use {Struct, Pointer, get_pointer_field, is_null, get_struct, get_text, get_data}

  abbrev pub from_pointer : Pointer → Result Str Struct
  from_pointer p = get_struct p

  abbrev pub get_err : Struct → Result Str Bytes
  get_err s = get_text (get_pointer_field s 0)

  abbrev pub has_err : Struct → Bool
  has_err s = not (is_null (get_pointer_field s 0))

  abbrev pub get_spans : Struct → Result Str Bytes
  get_spans s = get_data (get_pointer_field s 1)

  abbrev pub has_spans : Struct → Bool
  has_spans s = not (is_null (get_pointer_field s 1))
