-- ===== src/Schema/ConnectionError.antt =====
-- The reader of `connection_error` in src/tunnelrpc_capnp.rs.
pub mod Builder
pub mod Described
pub mod Written
use argo_rust.Base.{ℕ, Bool, not, Str, Result}
use argo_rust.CapnpRpc.Bytes.{Bytes}
use argo_rust.Schema.{Layout, StructSize, i64, get_bool_field}

abbrev pub type_id : ℕ
type_id = 0xf5f383d2785edb86

abbrev pub struct_size : StructSize
struct_size = record { data_words = 2; pointers = 1 }

module _ (l : Layout) where
  open l use {Struct, Pointer, get_pointer_field, get_data_field, is_null, get_struct, get_text}

  abbrev pub from_pointer : Pointer → Result Str Struct
  from_pointer p = get_struct p

  abbrev pub get_cause : Struct → Result Str Bytes
  get_cause s = get_text (get_pointer_field s 0)

  abbrev pub has_cause : Struct → Bool
  has_cause s = not (is_null (get_pointer_field s 0))

  abbrev pub get_retry_after : Struct → ℕ
  get_retry_after s = get_data_field i64 s 0

  abbrev pub get_should_retry : Struct → Bool
  get_should_retry s = get_bool_field l s 64
