-- ===== src/Schema/UnregisterUdpSessionParams/Builder.antt =====
-- The builder of `session_manager::unregister_udp_session_params` in src/tunnelrpc_capnp.rs. What a builder
-- of a part does to it is the argument `fill`.
use argo_rust.Base.{ℕ, Bool, not, Str, Result, replicate}
use argo_rust.CapnpRpc.Bytes.{Bytes}
use argo_rust.Schema.{Layout, is_pointer_field_null}
use argo_rust.Schema.UnregisterUdpSessionParams.{struct_size}

module _ (l : Layout) where
  open l use {
    Struct, Pointer, init_struct, set_pointer_field, to_struct, to_text, to_data, set_struct,
  }

  abbrev pub init_pointer : (Struct → Struct) → Pointer
  init_pointer fill = to_struct (fill (init_struct struct_size))

  abbrev pub set_pointer_builder : Struct → Result Str Pointer
  set_pointer_builder value = set_struct value

  abbrev pub set_session_id : Bytes → Struct → Struct
  set_session_id v s = set_pointer_field s 0 (to_data v)

  abbrev pub init_session_id : ℕ → (Bytes → Bytes) → Struct → Struct
  init_session_id size fill s = set_pointer_field s 0 (to_data (fill (replicate size 0)))

  abbrev pub has_session_id : Struct → Bool
  has_session_id s = not (is_pointer_field_null l s 0)

  abbrev pub set_message : Bytes → Struct → Struct
  set_message v s = set_pointer_field s 1 (to_text v)

  abbrev pub init_message : ℕ → (Bytes → Bytes) → Struct → Struct
  init_message size fill s = set_pointer_field s 1 (to_text (fill (replicate size 0)))

  abbrev pub has_message : Struct → Bool
  has_message s = not (is_pointer_field_null l s 1)
