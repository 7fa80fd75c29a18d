-- ===== src/Schema/ClientInfo/Builder.antt =====
-- The builder of `client_info` in src/tunnelrpc_capnp.rs. What a builder
-- of a part does to it is the argument `fill`.
use argo_rust.Base.{ℕ, Bool, not, Str, Result, ok, replicate, List, ◌>>=◌}
use argo_rust.CapnpRpc.Bytes.{Bytes}
use argo_rust.Schema.{Layout, is_pointer_field_null, init_list}
use argo_rust.Schema.ClientInfo.{struct_size}

module _ (l : Layout) where
  open l use {
    Struct, Pointer, init_struct, set_pointer_field, to_struct, to_text, to_data, set_struct,
    set_list,
  }

  abbrev pub init_pointer : (Struct → Struct) → Pointer
  init_pointer fill = to_struct (fill (init_struct struct_size))

  abbrev pub set_pointer_builder : Struct → Result Str Pointer
  set_pointer_builder value = set_struct value

  abbrev pub set_client_id : Bytes → Struct → Struct
  set_client_id v s = set_pointer_field s 0 (to_data v)

  abbrev pub init_client_id : ℕ → (Bytes → Bytes) → Struct → Struct
  init_client_id size fill s = set_pointer_field s 0 (to_data (fill (replicate size 0)))

  abbrev pub has_client_id : Struct → Bool
  has_client_id s = not (is_pointer_field_null l s 0)

  abbrev pub set_features : List Pointer → Struct → Result Str Struct
  set_features v s = do p ← set_list v; ok (set_pointer_field s 1 p)

  abbrev pub init_features : ℕ → (List Pointer → List Pointer) → Struct → Struct
  init_features size fill s = set_pointer_field s 1 (init_list l size fill)

  abbrev pub has_features : Struct → Bool
  has_features s = not (is_pointer_field_null l s 1)

  abbrev pub set_version : Bytes → Struct → Struct
  set_version v s = set_pointer_field s 2 (to_text v)

  abbrev pub init_version : ℕ → (Bytes → Bytes) → Struct → Struct
  init_version size fill s = set_pointer_field s 2 (to_text (fill (replicate size 0)))

  abbrev pub has_version : Struct → Bool
  has_version s = not (is_pointer_field_null l s 2)

  abbrev pub set_arch : Bytes → Struct → Struct
  set_arch v s = set_pointer_field s 3 (to_text v)

  abbrev pub init_arch : ℕ → (Bytes → Bytes) → Struct → Struct
  init_arch size fill s = set_pointer_field s 3 (to_text (fill (replicate size 0)))

  abbrev pub has_arch : Struct → Bool
  has_arch s = not (is_pointer_field_null l s 3)
