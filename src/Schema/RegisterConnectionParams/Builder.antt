-- ===== src/Schema/RegisterConnectionParams/Builder.antt =====
-- The builder of `registration_server::register_connection_params` in src/tunnelrpc_capnp.rs. What a builder
-- of a part does to it is the argument `fill`.
use argo_rust.Base.{ℕ, Bool, not, Str, Result, ok, replicate, ◌>>=◌}
use argo_rust.CapnpRpc.Bytes.{Bytes}
use argo_rust.Schema.{Layout, u8, is_pointer_field_null}
use argo_rust.Schema.ConnectionOptions.Builder as ConnectionOptionsBuilder
use argo_rust.Schema.TunnelAuth.Builder as TunnelAuthBuilder
use argo_rust.Schema.RegisterConnectionParams.{struct_size}

module _ (l : Layout) where
  open l use {
    Struct, Pointer, init_struct, set_pointer_field, get_data_field, set_data_field, to_struct,
    to_data, set_struct,
  }

  abbrev pub init_pointer : (Struct → Struct) → Pointer
  init_pointer fill = to_struct (fill (init_struct struct_size))

  abbrev pub set_pointer_builder : Struct → Result Str Pointer
  set_pointer_builder value = set_struct value

  abbrev pub set_auth : Struct → Struct → Result Str Struct
  set_auth v s = do p ← TunnelAuthBuilder.set_pointer_builder l v; ok (set_pointer_field s 0 p)

  abbrev pub init_auth : (Struct → Struct) → Struct → Struct
  init_auth fill s = set_pointer_field s 0 (TunnelAuthBuilder.init_pointer l fill)

  abbrev pub has_auth : Struct → Bool
  has_auth s = not (is_pointer_field_null l s 0)

  abbrev pub set_tunnel_id : Bytes → Struct → Struct
  set_tunnel_id v s = set_pointer_field s 1 (to_data v)

  abbrev pub init_tunnel_id : ℕ → (Bytes → Bytes) → Struct → Struct
  init_tunnel_id size fill s = set_pointer_field s 1 (to_data (fill (replicate size 0)))

  abbrev pub has_tunnel_id : Struct → Bool
  has_tunnel_id s = not (is_pointer_field_null l s 1)

  abbrev pub get_conn_index : Struct → ℕ
  get_conn_index s = get_data_field u8 s 0

  abbrev pub set_conn_index : ℕ → Struct → Struct
  set_conn_index v s = set_data_field u8 s 0 v

  abbrev pub set_options : Struct → Struct → Result Str Struct
  set_options v s = do
    p ← ConnectionOptionsBuilder.set_pointer_builder l v
    ok (set_pointer_field s 2 p)

  abbrev pub init_options : (Struct → Struct) → Struct → Struct
  init_options fill s = set_pointer_field s 2 (ConnectionOptionsBuilder.init_pointer l fill)

  abbrev pub has_options : Struct → Bool
  has_options s = not (is_pointer_field_null l s 2)
