-- ===== src/Schema/UpdateLocalConfigurationResults.antt =====
-- The reader of `registration_server::update_local_configuration_results` in src/tunnelrpc_capnp.rs.
pub mod Builder
pub mod Described
use argo_rust.Base.{ℕ, Str, Result}
use argo_rust.Schema.{Layout, StructSize}

abbrev pub type_id : ℕ
type_id = 0xe5ceae5d6897d7be

abbrev pub struct_size : StructSize
struct_size = record { data_words = 0; pointers = 0 }

module _ (l : Layout) where
  open l use {Struct, Pointer, get_struct}

  abbrev pub from_pointer : Pointer → Result Str Struct
  from_pointer p = get_struct p
