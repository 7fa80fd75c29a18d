-- ===== src/Schema/ConnectionOptions/Builder.antt =====
-- The builder of `connection_options` in src/tunnelrpc_capnp.rs. What a builder
-- of a part does to it is the argument `fill`.
use argo_rust.Base.{ℕ, Bool, not, Str, Result, ok, replicate, ◌>>=◌}
use argo_rust.CapnpRpc.Bytes.{Bytes}
use argo_rust.Schema.{Layout, u8, get_bool_field, set_bool_field, is_pointer_field_null}
use argo_rust.Schema.ClientInfo.Builder as ClientInfoBuilder
use argo_rust.Schema.ConnectionOptions.{struct_size}

module _ (l : Layout) where
  open l use {
    Struct, Pointer, init_struct, set_pointer_field, get_data_field, set_data_field, to_struct,
    to_data, set_struct,
  }

  abbrev pub init_pointer : (Struct → Struct) → Pointer
  init_pointer fill = to_struct (fill (init_struct struct_size))

  abbrev pub set_pointer_builder : Struct → Result Str Pointer
  set_pointer_builder value = set_struct value

  abbrev pub set_client : Struct → Struct → Result Str Struct
  set_client v s = do p ← ClientInfoBuilder.set_pointer_builder l v; ok (set_pointer_field s 0 p)

  abbrev pub init_client : (Struct → Struct) → Struct → Struct
  init_client fill s = set_pointer_field s 0 (ClientInfoBuilder.init_pointer l fill)

  abbrev pub has_client : Struct → Bool
  has_client s = not (is_pointer_field_null l s 0)

  abbrev pub set_origin_local_ip : Bytes → Struct → Struct
  set_origin_local_ip v s = set_pointer_field s 1 (to_data v)

  abbrev pub init_origin_local_ip : ℕ → (Bytes → Bytes) → Struct → Struct
  init_origin_local_ip size fill s = set_pointer_field s 1 (to_data (fill (replicate size 0)))

  abbrev pub has_origin_local_ip : Struct → Bool
  has_origin_local_ip s = not (is_pointer_field_null l s 1)

  abbrev pub get_replace_existing : Struct → Bool
  get_replace_existing s = get_bool_field l s 0

  abbrev pub set_replace_existing : Bool → Struct → Struct
  set_replace_existing v s = set_bool_field l s 0 v

  abbrev pub get_compression_quality : Struct → ℕ
  get_compression_quality s = get_data_field u8 s 1

  abbrev pub set_compression_quality : ℕ → Struct → Struct
  set_compression_quality v s = set_data_field u8 s 1 v

  abbrev pub get_num_previous_attempts : Struct → ℕ
  get_num_previous_attempts s = get_data_field u8 s 2

  abbrev pub set_num_previous_attempts : ℕ → Struct → Struct
  set_num_previous_attempts v s = set_data_field u8 s 2 v
