-- ===== src/Schema/UnregisterConnectionResults/Builder.antt =====
-- The builder of `registration_server::unregister_connection_results` in src/tunnelrpc_capnp.rs. What a builder
-- of a part does to it is the argument `fill`.
use argo_rust.Base.{Str, Result}
use argo_rust.Schema.{Layout}
use argo_rust.Schema.UnregisterConnectionResults.{struct_size}

module _ (l : Layout) where
  open l use {Struct, Pointer, init_struct, to_struct, set_struct}

  abbrev pub init_pointer : (Struct → Struct) → Pointer
  init_pointer fill = to_struct (fill (init_struct struct_size))

  abbrev pub set_pointer_builder : Struct → Result Str Pointer
  set_pointer_builder value = set_struct value
