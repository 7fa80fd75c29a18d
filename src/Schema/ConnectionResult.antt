-- ===== src/Schema/ConnectionResult.antt =====
-- The reader of `connection_response::result` in src/tunnelrpc_capnp.rs: a union of an error and
-- the details of the connection.
pub mod Builder
pub mod Described
use argo_rust.Base.{ℕ, Bool, false, not, Str, Result, ok, err, ◌==◌, if◌then◌else◌}
use argo_rust.Schema.{Layout, StructSize, u16}
use argo_rust.Schema.ConnectionError
use argo_rust.Schema.ConnectionDetails

abbrev pub type_id : ℕ
type_id = 0x97b3c5c260257622

abbrev pub struct_size : StructSize
struct_size = record { data_words = 1; pointers = 1 }

pub data Which (A B : Type 0) : Type 0 where
  error : A → Which A B
  connection_details : B → Which A B

-- `NotInSchema`, with the tag.
pub data NotInSchema : Type 0 where
  not_in_schema : ℕ → NotInSchema

module _ (l : Layout) where
  open l use {Struct, Pointer, get_pointer_field, get_data_field, is_null, get_struct}

  abbrev pub from_pointer : Pointer → Result Str Struct
  from_pointer p = get_struct p

  abbrev pub has_error : Struct → Bool
  has_error s =
      if not (get_data_field u16 s 0 == 0) then false else not (is_null (get_pointer_field s 0))

  abbrev pub has_connection_details : Struct → Bool
  has_connection_details s =
      if not (get_data_field u16 s 0 == 1) then false else not (is_null (get_pointer_field s 0))

  abbrev pub WhichReader : Type 0
  WhichReader = Which (Result Str Struct) (Result Str Struct)

  abbrev pub which : Struct → Result NotInSchema WhichReader
  which s =
      let tag = get_data_field u16 s 0 in
      if tag == 0
      then ok (error (ConnectionError.from_pointer l (get_pointer_field s 0)))
      else if tag == 1
      then ok (connection_details (ConnectionDetails.from_pointer l (get_pointer_field s 0)))
      else err (not_in_schema tag)
