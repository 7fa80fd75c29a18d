-- ===== src/Schema/UpdateConfigurationParams.antt =====
-- The reader of `configuration_manager::update_configuration_params` in src/tunnelrpc_capnp.rs.
pub mod Builder
pub mod Described
pub mod Written
use argo_rust.Base.{ℕ, Bool, not, Str, Result}
use argo_rust.CapnpRpc.Bytes.{Bytes}
use argo_rust.Schema.{Layout, StructSize, i32}

abbrev pub type_id : ℕ
type_id = 0xb177ca2526a3ca76

abbrev pub struct_size : StructSize
struct_size = record { data_words = 1; pointers = 1 }

module _ (l : Layout) where
  open l use {Struct, Pointer, get_pointer_field, get_data_field, is_null, get_struct, get_data}

  abbrev pub from_pointer : Pointer → Result Str Struct
  from_pointer p = get_struct p

  abbrev pub get_version : Struct → ℕ
  get_version s = get_data_field i32 s 0

  abbrev pub get_config : Struct → Result Str Bytes
  get_config s = get_data (get_pointer_field s 0)

  abbrev pub has_config : Struct → Bool
  has_config s = not (is_null (get_pointer_field s 0))
