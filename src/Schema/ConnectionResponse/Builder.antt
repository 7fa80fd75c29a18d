-- ===== src/Schema/ConnectionResponse/Builder.antt =====
-- The builder of `connection_response` in src/tunnelrpc_capnp.rs.
use argo_rust.Base.{Str, Result}
use argo_rust.Schema.{Layout, u16}
use argo_rust.Schema.ConnectionResponse.{struct_size}

module _ (l : Layout) where
  open l use {
    Struct, Pointer, init_struct, set_pointer_field, set_data_field, null, to_struct, set_struct,
  }

  abbrev pub init_pointer : (Struct → Struct) → Pointer
  init_pointer fill = to_struct (fill (init_struct struct_size))

  abbrev pub set_pointer_builder : Struct → Result Str Pointer
  set_pointer_builder value = set_struct value

  abbrev pub get_result : Struct → Struct
  get_result s = s

  -- The group begins as the first member of the union, without a value.
  abbrev pub init_result : (Struct → Struct) → Struct → Struct
  init_result fill s = fill (set_pointer_field (set_data_field u16 s 0 0) 0 null)
