-- ===== src/Schema/ConnectionResult/Builder.antt =====
-- The builder of `connection_response::result` in src/tunnelrpc_capnp.rs.
use argo_rust.Base.{Bool, false, not, Str, Result, ok, ◌==◌, if◌then◌else◌, ◌>>=◌}
use argo_rust.Schema.{Layout, u16, is_pointer_field_null}
use argo_rust.Schema.ConnectionError.Builder as ConnectionErrorBuilder
use argo_rust.Schema.ConnectionDetails.Builder as ConnectionDetailsBuilder
use argo_rust.Schema.ConnectionResult.{struct_size}

module _ (l : Layout) where
  open l use {
    Struct, Pointer, init_struct, set_pointer_field, get_data_field, set_data_field, to_struct,
    set_struct,
  }

  abbrev pub init_pointer : (Struct → Struct) → Pointer
  init_pointer fill = to_struct (fill (init_struct struct_size))

  abbrev pub set_pointer_builder : Struct → Result Str Pointer
  set_pointer_builder value = set_struct value

  abbrev pub set_error : Struct → Struct → Result Str Struct
  set_error v s = do
    p ← ConnectionErrorBuilder.set_pointer_builder l v
    ok (set_pointer_field (set_data_field u16 s 0 0) 0 p)

  abbrev pub init_error : (Struct → Struct) → Struct → Struct
  init_error fill s =
      set_pointer_field (set_data_field u16 s 0 0) 0 (ConnectionErrorBuilder.init_pointer l fill)

  abbrev pub has_error : Struct → Bool
  has_error s =
      if not (get_data_field u16 s 0 == 0) then false else not (is_pointer_field_null l s 0)

  abbrev pub set_connection_details : Struct → Struct → Result Str Struct
  set_connection_details v s = do
    p ← ConnectionDetailsBuilder.set_pointer_builder l v
    ok (set_pointer_field (set_data_field u16 s 0 1) 0 p)

  abbrev pub init_connection_details : (Struct → Struct) → Struct → Struct
  init_connection_details fill s =
      set_pointer_field (set_data_field u16 s 0 1) 0 (ConnectionDetailsBuilder.init_pointer l fill)

  abbrev pub has_connection_details : Struct → Bool
  has_connection_details s =
      if not (get_data_field u16 s 0 == 1) then false else not (is_pointer_field_null l s 0)
