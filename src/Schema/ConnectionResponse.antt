-- ===== src/Schema/ConnectionResponse.antt =====
-- The reader of `connection_response` in src/tunnelrpc_capnp.rs.
pub mod Builder
pub mod Described
use argo_rust.Base.{ℕ, Str, Result}
use argo_rust.Schema.{Layout, StructSize}

abbrev pub type_id : ℕ
type_id = 0xdbaa9d03d52b62dc

abbrev pub struct_size : StructSize
struct_size = record { data_words = 1; pointers = 1 }

module _ (l : Layout) where
  open l use {Struct, Pointer, get_struct}

  abbrev pub from_pointer : Pointer → Result Str Struct
  from_pointer p = get_struct p

  -- The group has the struct itself.
  abbrev pub get_result : Struct → Struct
  get_result s = s
