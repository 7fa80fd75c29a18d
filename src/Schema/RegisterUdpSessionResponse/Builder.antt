-- ===== src/Schema/RegisterUdpSessionResponse/Builder.antt =====
-- The builder of `register_udp_session_response` in src/tunnelrpc_capnp.rs. What a builder
-- of a part does to it is the argument `fill`.
use argo_rust.Base.{ℕ, Bool, not, Str, Result, replicate}
use argo_rust.CapnpRpc.Bytes.{Bytes}
use argo_rust.Schema.{Layout, is_pointer_field_null}
use argo_rust.Schema.RegisterUdpSessionResponse.{struct_size}

module _ (l : Layout) where
  open l use {
    Struct, Pointer, init_struct, set_pointer_field, to_struct, to_text, to_data, set_struct,
  }

  abbrev pub init_pointer : (Struct → Struct) → Pointer
  init_pointer fill = to_struct (fill (init_struct struct_size))

  abbrev pub set_pointer_builder : Struct → Result Str Pointer
  set_pointer_builder value = set_struct value

  abbrev pub set_err : Bytes → Struct → Struct
  set_err v s = set_pointer_field s 0 (to_text v)

  abbrev pub init_err : ℕ → (Bytes → Bytes) → Struct → Struct
  init_err size fill s = set_pointer_field s 0 (to_text (fill (replicate size 0)))

  abbrev pub has_err : Struct → Bool
  has_err s = not (is_pointer_field_null l s 0)

  abbrev pub set_spans : Bytes → Struct → Struct
  set_spans v s = set_pointer_field s 1 (to_data v)

  abbrev pub init_spans : ℕ → (Bytes → Bytes) → Struct → Struct
  init_spans size fill s = set_pointer_field s 1 (to_data (fill (replicate size 0)))

  abbrev pub has_spans : Struct → Bool
  has_spans s = not (is_pointer_field_null l s 1)
