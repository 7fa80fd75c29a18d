-- ===== src/Schema/TunnelAuth.antt =====
-- The reader of `tunnel_auth` in src/tunnelrpc_capnp.rs.
pub mod Builder
pub mod Described
pub mod Written
use argo_rust.Base.{ℕ, Bool, not, Str, Result}
use argo_rust.CapnpRpc.Bytes.{Bytes}
use argo_rust.Schema.{Layout, StructSize}

abbrev pub type_id : ℕ
type_id = 0x9496331ab9cd463f

abbrev pub struct_size : StructSize
struct_size = record { data_words = 0; pointers = 2 }

module _ (l : Layout) where
  open l use {Struct, Pointer, get_pointer_field, is_null, get_struct, get_text, get_data}

  abbrev pub from_pointer : Pointer → Result Str Struct
  from_pointer p = get_struct p

  abbrev pub get_account_tag : Struct → Result Str Bytes
  get_account_tag s = get_text (get_pointer_field s 0)

  abbrev pub has_account_tag : Struct → Bool
  has_account_tag s = not (is_null (get_pointer_field s 0))

  abbrev pub get_tunnel_secret : Struct → Result Str Bytes
  get_tunnel_secret s = get_data (get_pointer_field s 1)

  abbrev pub has_tunnel_secret : Struct → Bool
  has_tunnel_secret s = not (is_null (get_pointer_field s 1))
