-- ===== src/Schema/RegisterUdpSessionResults/Builder.antt =====
-- The builder of `session_manager::register_udp_session_results` in src/tunnelrpc_capnp.rs. What a builder
-- of a part does to it is the argument `fill`.
use argo_rust.Base.{Bool, not, Str, Result, ok, ◌>>=◌}
use argo_rust.Schema.{Layout, is_pointer_field_null}
use argo_rust.Schema.RegisterUdpSessionResponse.Builder as RegisterUdpSessionResponseBuilder
use argo_rust.Schema.RegisterUdpSessionResults.{struct_size}

module _ (l : Layout) where
  open l use {Struct, Pointer, init_struct, set_pointer_field, to_struct, set_struct}

  abbrev pub init_pointer : (Struct → Struct) → Pointer
  init_pointer fill = to_struct (fill (init_struct struct_size))

  abbrev pub set_pointer_builder : Struct → Result Str Pointer
  set_pointer_builder value = set_struct value

  abbrev pub set_result : Struct → Struct → Result Str Struct
  set_result v s = do
    p ← RegisterUdpSessionResponseBuilder.set_pointer_builder l v
    ok (set_pointer_field s 0 p)

  abbrev pub init_result : (Struct → Struct) → Struct → Struct
  init_result fill s = set_pointer_field s 0 (RegisterUdpSessionResponseBuilder.init_pointer l fill)

  abbrev pub has_result : Struct → Bool
  has_result s = not (is_pointer_field_null l s 0)
