-- ===== src/Schema/UpdateConfigurationResults.antt =====
-- The reader of `configuration_manager::update_configuration_results` in src/tunnelrpc_capnp.rs.
pub mod Builder
pub mod Described
pub mod Written
use argo_rust.Base.{ℕ, Bool, not, Str, Result}
use argo_rust.Schema.{Layout, StructSize}
use argo_rust.Schema.UpdateConfigurationResponse

abbrev pub type_id : ℕ
type_id = 0x958096448eb3373e

abbrev pub struct_size : StructSize
struct_size = record { data_words = 0; pointers = 1 }

module _ (l : Layout) where
  open l use {Struct, Pointer, get_pointer_field, is_null, get_struct}

  abbrev pub from_pointer : Pointer → Result Str Struct
  from_pointer p = get_struct p

  abbrev pub get_result : Struct → Result Str Struct
  get_result s = UpdateConfigurationResponse.from_pointer l (get_pointer_field s 0)

  abbrev pub has_result : Struct → Bool
  has_result s = not (is_null (get_pointer_field s 0))
