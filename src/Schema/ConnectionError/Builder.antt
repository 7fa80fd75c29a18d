-- ===== src/Schema/ConnectionError/Builder.antt =====
-- The builder of `connection_error` in src/tunnelrpc_capnp.rs. What a builder
-- of a part does to it is the argument `fill`.
use argo_rust.Base.{ℕ, Bool, not, Str, Result, replicate}
use argo_rust.CapnpRpc.Bytes.{Bytes}
use argo_rust.Schema.{Layout, i64, get_bool_field, set_bool_field, is_pointer_field_null}
use argo_rust.Schema.ConnectionError.{struct_size}

module _ (l : Layout) where
  open l use {
    Struct, Pointer, init_struct, set_pointer_field, get_data_field, set_data_field, to_struct,
    to_text, set_struct,
  }

  abbrev pub init_pointer : (Struct → Struct) → Pointer
  init_pointer fill = to_struct (fill (init_struct struct_size))

  abbrev pub set_pointer_builder : Struct → Result Str Pointer
  set_pointer_builder value = set_struct value

  abbrev pub set_cause : Bytes → Struct → Struct
  set_cause v s = set_pointer_field s 0 (to_text v)

  abbrev pub init_cause : ℕ → (Bytes → Bytes) → Struct → Struct
  init_cause size fill s = set_pointer_field s 0 (to_text (fill (replicate size 0)))

  abbrev pub has_cause : Struct → Bool
  has_cause s = not (is_pointer_field_null l s 0)

  abbrev pub get_retry_after : Struct → ℕ
  get_retry_after s = get_data_field i64 s 0

  abbrev pub set_retry_after : ℕ → Struct → Struct
  set_retry_after v s = set_data_field i64 s 0 v

  abbrev pub get_should_retry : Struct → Bool
  get_should_retry s = get_bool_field l s 64

  abbrev pub set_should_retry : Bool → Struct → Struct
  set_should_retry v s = set_bool_field l s 64 v
