-- ===== src/Schema/UnregisterUdpSessionResults.antt =====
-- The reader of `session_manager::unregister_udp_session_results` in src/tunnelrpc_capnp.rs.
pub mod Builder
pub mod Described
use argo_rust.Base.{ℕ, Str, Result}
use argo_rust.Schema.{Layout, StructSize}

abbrev pub type_id : ℕ
type_id = 0xf24ec4ab5891b676

abbrev pub struct_size : StructSize
struct_size = record { data_words = 0; pointers = 0 }

module _ (l : Layout) where
  open l use {Struct, Pointer, get_struct}

  abbrev pub from_pointer : Pointer → Result Str Struct
  from_pointer p = get_struct p
