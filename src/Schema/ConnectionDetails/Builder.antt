-- ===== src/Schema/ConnectionDetails/Builder.antt =====
-- The builder of `connection_details` in src/tunnelrpc_capnp.rs. What a builder
-- of a part does to it is the argument `fill`.
use argo_rust.Base.{ℕ, Bool, not, Str, Result, replicate}
use argo_rust.CapnpRpc.Bytes.{Bytes}
use argo_rust.Schema.{Layout, get_bool_field, set_bool_field, is_pointer_field_null}
use argo_rust.Schema.ConnectionDetails.{struct_size}

module _ (l : Layout) where
  open l use {
    Struct, Pointer, init_struct, set_pointer_field, to_struct, to_text, to_data, set_struct,
  }

  abbrev pub init_pointer : (Struct → Struct) → Pointer
  init_pointer fill = to_struct (fill (init_struct struct_size))

  abbrev pub set_pointer_builder : Struct → Result Str Pointer
  set_pointer_builder value = set_struct value

  abbrev pub set_uuid : Bytes → Struct → Struct
  set_uuid v s = set_pointer_field s 0 (to_data v)

  abbrev pub init_uuid : ℕ → (Bytes → Bytes) → Struct → Struct
  init_uuid size fill s = set_pointer_field s 0 (to_data (fill (replicate size 0)))

  abbrev pub has_uuid : Struct → Bool
  has_uuid s = not (is_pointer_field_null l s 0)

  abbrev pub set_location_name : Bytes → Struct → Struct
  set_location_name v s = set_pointer_field s 1 (to_text v)

  abbrev pub init_location_name : ℕ → (Bytes → Bytes) → Struct → Struct
  init_location_name size fill s = set_pointer_field s 1 (to_text (fill (replicate size 0)))

  abbrev pub has_location_name : Struct → Bool
  has_location_name s = not (is_pointer_field_null l s 1)

  abbrev pub get_tunnel_is_remotely_managed : Struct → Bool
  get_tunnel_is_remotely_managed s = get_bool_field l s 0

  abbrev pub set_tunnel_is_remotely_managed : Bool → Struct → Struct
  set_tunnel_is_remotely_managed v s = set_bool_field l s 0 v
