-- ===== src/Schema/UpdateConfigurationParams/Builder.antt =====
-- The builder of `configuration_manager::update_configuration_params` in src/tunnelrpc_capnp.rs. What a builder
-- of a part does to it is the argument `fill`.
use argo_rust.Base.{ℕ, Bool, not, Str, Result, replicate}
use argo_rust.CapnpRpc.Bytes.{Bytes}
use argo_rust.Schema.{Layout, i32, is_pointer_field_null}
use argo_rust.Schema.UpdateConfigurationParams.{struct_size}

module _ (l : Layout) where
  open l use {
    Struct, Pointer, init_struct, set_pointer_field, get_data_field, set_data_field, to_struct,
    to_data, set_struct,
  }

  abbrev pub init_pointer : (Struct → Struct) → Pointer
  init_pointer fill = to_struct (fill (init_struct struct_size))

  abbrev pub set_pointer_builder : Struct → Result Str Pointer
  set_pointer_builder value = set_struct value

  abbrev pub get_version : Struct → ℕ
  get_version s = get_data_field i32 s 0

  abbrev pub set_version : ℕ → Struct → Struct
  set_version v s = set_data_field i32 s 0 v

  abbrev pub set_config : Bytes → Struct → Struct
  set_config v s = set_pointer_field s 0 (to_data v)

  abbrev pub init_config : ℕ → (Bytes → Bytes) → Struct → Struct
  init_config size fill s = set_pointer_field s 0 (to_data (fill (replicate size 0)))

  abbrev pub has_config : Struct → Bool
  has_config s = not (is_pointer_field_null l s 0)
