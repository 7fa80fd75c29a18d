-- ===== src/Schema.antt =====
-- What src/tunnelrpc_capnp.rs and its callers use of the layout module of the crate capnp. A struct
-- is a value: a write gives the struct after it, and a builder of a child is the child's value, which
-- is put back behind the pointer when it is filled. A text stands for its UTF-8 bytes.
pub mod Writes
pub mod Node
pub mod Memory
pub mod RegistrationServer
pub mod SessionManager
pub mod ConfigurationManager
pub mod CloudflaredServer
pub mod Messages
pub mod Tag
pub mod ClientInfo
pub mod ConnectionOptions
pub mod ConnectionResponse
pub mod ConnectionResult
pub mod ConnectionError
pub mod ConnectionDetails
pub mod TunnelAuth
pub mod RegisterConnectionParams
pub mod RegisterConnectionResults
pub mod UnregisterConnectionParams
pub mod UnregisterConnectionResults
pub mod UpdateLocalConfigurationParams
pub mod UpdateLocalConfigurationResults
pub mod RegisterUdpSessionResponse
pub mod RegisterUdpSessionResults
pub mod UnregisterUdpSessionParams
pub mod UnregisterUdpSessionResults
pub mod UpdateConfigurationResponse
pub mod UpdateConfigurationParams
pub mod UpdateConfigurationResults
use argo_rust.Base.{ℕ, ◌*◌, Bool, List, Str, Result, replicate, ◌==◌, if◌then◌else◌}
use argo_rust.CapnpRpc.Bytes.{Bytes}

-- The types of `get_data_field::<T>`, with `bool` for `get_bool_field`.
pub data Primitive : Type 0 where
  boolean : Primitive
  i8 : Primitive
  i16 : Primitive
  i32 : Primitive
  i64 : Primitive
  u8 : Primitive
  u16 : Primitive
  u32 : Primitive
  u64 : Primitive

abbrev pub width : Primitive → ℕ
width boolean = 1
width i8 = 8
width i16 = 16
width i32 = 32
width i64 = 64
width u8 = 8
width u16 = 16
width u32 = 32
width u64 = 64

-- `StructSize`: the words of the data section, and the pointers behind it.
pub record StructSize : Type 0 where
  pub data_words : ℕ
  pub pointers : ℕ

pub record Layout : Type 1 where
  pub Struct : Type 0
  pub Pointer : Type 0
  -- A struct with a zero data section and null pointers.
  pub init_struct : StructSize → Struct
  pub get_pointer_field : Struct → ℕ → Pointer
  pub set_pointer_field : Struct → ℕ → Pointer → Struct
  -- The field of a type at an index that counts in values of that type, as its bits.
  pub get_data_field : Primitive → Struct → ℕ → ℕ
  pub set_data_field : Primitive → Struct → ℕ → ℕ → Struct
  pub is_null : Pointer → Bool
  -- A pointer after `clear`, after `init_struct`, `init_text`, `init_data` and `init_list` when the
  -- builder is filled, and after `set_text` and `set_data`.
  pub null : Pointer
  pub to_struct : Struct → Pointer
  pub to_text : Bytes → Pointer
  pub to_data : Bytes → Pointer
  pub to_list : List Pointer → Pointer
  -- `PointerReader::get_struct`, `get_text`, `get_data` and `get_list` without a default.
  pub get_struct : Pointer → Result Str Struct
  pub get_text : Pointer → Result Str Bytes
  pub get_data : Pointer → Result Str Bytes
  pub get_list : Pointer → Result Str (List Pointer)
  -- `set_struct` and `set_list` copy what a reader reads, which a message of others may refuse.
  pub set_struct : Struct → Result Str Pointer
  pub set_list : List Pointer → Result Str Pointer

module _ (l : Layout) where
  open l use {
    Struct, Pointer, get_pointer_field, get_data_field, set_data_field, is_null, null, to_list,
  }

  -- `is_pointer_field_null`.
  abbrev pub is_pointer_field_null : Struct → ℕ → Bool
  is_pointer_field_null s i = is_null (get_pointer_field s i)

  -- `get_bool_field` and `set_bool_field`.
  abbrev pub get_bool_field : Struct → ℕ → Bool
  get_bool_field s i = get_data_field boolean s i == 1

  abbrev pub set_bool_field : Struct → ℕ → Bool → Struct
  set_bool_field s i b = set_data_field boolean s i (if b then 1 else 0)

  -- `init_list` with elements that are pointers, filled by what is done with its builder.
  abbrev pub init_list : ℕ → (List Pointer → List Pointer) → Pointer
  init_list count fill = to_list (fill (replicate count null))
