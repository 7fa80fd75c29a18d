-- ===== src/Schema/Tag/Builder.antt =====
-- The builder of `tag` in src/tunnelrpc_capnp.rs. What a builder
-- of a part does to it is the argument `fill`.
use argo_rust.Base.{ℕ, Bool, not, Str, Result, replicate}
use argo_rust.CapnpRpc.Bytes.{Bytes}
use argo_rust.Schema.{Layout, is_pointer_field_null}
use argo_rust.Schema.Tag.{struct_size}

module _ (l : Layout) where
  open l use {Struct, Pointer, init_struct, set_pointer_field, to_struct, to_text, set_struct}

  abbrev pub init_pointer : (Struct → Struct) → Pointer
  init_pointer fill = to_struct (fill (init_struct struct_size))

  abbrev pub set_pointer_builder : Struct → Result Str Pointer
  set_pointer_builder value = set_struct value

  abbrev pub set_name : Bytes → Struct → Struct
  set_name v s = set_pointer_field s 0 (to_text v)

  abbrev pub init_name : ℕ → (Bytes → Bytes) → Struct → Struct
  init_name size fill s = set_pointer_field s 0 (to_text (fill (replicate size 0)))

  abbrev pub has_name : Struct → Bool
  has_name s = not (is_pointer_field_null l s 0)

  abbrev pub set_value : Bytes → Struct → Struct
  set_value v s = set_pointer_field s 1 (to_text v)

  abbrev pub init_value : ℕ → (Bytes → Bytes) → Struct → Struct
  init_value size fill s = set_pointer_field s 1 (to_text (fill (replicate size 0)))

  abbrev pub has_value : Struct → Bool
  has_value s = not (is_pointer_field_null l s 1)
