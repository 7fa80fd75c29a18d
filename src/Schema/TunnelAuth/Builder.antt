-- ===== src/Schema/TunnelAuth/Builder.antt =====
-- The builder of `tunnel_auth` in src/tunnelrpc_capnp.rs. What a builder
-- of a part does to it is the argument `fill`.
use argo_rust.Base.{ℕ, Bool, not, Str, Result, replicate}
use argo_rust.CapnpRpc.Bytes.{Bytes}
use argo_rust.Schema.{Layout, is_pointer_field_null}
use argo_rust.Schema.TunnelAuth.{struct_size}

module _ (l : Layout) where
  open l use {
    Struct, Pointer, init_struct, set_pointer_field, to_struct, to_text, to_data, set_struct,
  }

  abbrev pub init_pointer : (Struct → Struct) → Pointer
  init_pointer fill = to_struct (fill (init_struct struct_size))

  abbrev pub set_pointer_builder : Struct → Result Str Pointer
  set_pointer_builder value = set_struct value

  abbrev pub set_account_tag : Bytes → Struct → Struct
  set_account_tag v s = set_pointer_field s 0 (to_text v)

  abbrev pub init_account_tag : ℕ → (Bytes → Bytes) → Struct → Struct
  init_account_tag size fill s = set_pointer_field s 0 (to_text (fill (replicate size 0)))

  abbrev pub has_account_tag : Struct → Bool
  has_account_tag s = not (is_pointer_field_null l s 0)

  abbrev pub set_tunnel_secret : Bytes → Struct → Struct
  set_tunnel_secret v s = set_pointer_field s 1 (to_data v)

  abbrev pub init_tunnel_secret : ℕ → (Bytes → Bytes) → Struct → Struct
  init_tunnel_secret size fill s = set_pointer_field s 1 (to_data (fill (replicate size 0)))

  abbrev pub has_tunnel_secret : Struct → Bool
  has_tunnel_secret s = not (is_pointer_field_null l s 1)
