-- ===== src/Schema/ConnectionResult/Described.antt =====
-- The schema of `connection_response::result` that src/tunnelrpc_capnp.rs holds, and what it says
-- of the accessors.
use argo_rust.Base.{ℕ, some, none, List, [], ◌∷◌, codes, refl, Option, Result, ok, err, arith}
use argo_rust.CapnpRpc.Wire
use argo_rust.CapnpRpc.Bytes
use argo_rust.Schema.{Layout}
use argo_rust.Schema.Node.{word, RawSchema, FieldType, struct_type, IsDescribedBy, child, Value}
use argo_rust.Schema.ConnectionError
use argo_rust.Schema.ConnectionDetails
use argo_rust.Schema.ConnectionResult.{
  type_id, struct_size, which, WhichReader, error, connection_details, NotInSchema,
}

abbrev encoded_node : List ℕ
encoded_node =
    word 0 0 0 0 5 0 6 0
    ∷ word 34 118 37 96 194 197 179 151
    ∷ word 35 0 0 0 1 0 1 0
    ∷ word 220 98 43 213 3 157 170 219
    ∷ word 1 0 7 0 1 0 2 0
    ∷ word 0 0 0 0 0 0 0 0
    ∷ word 21 0 0 0 82 1 0 0
    ∷ word 0 0 0 0 0 0 0 0
    ∷ word 0 0 0 0 0 0 0 0
    ∷ word 33 0 0 0 119 0 0 0
    ∷ word 0 0 0 0 0 0 0 0
    ∷ word 0 0 0 0 0 0 0 0
    ∷ word 116 117 110 110 101 108 114 112
    ∷ word 99 46 99 97 112 110 112 58
    ∷ word 67 111 110 110 101 99 116 105
    ∷ word 111 110 82 101 115 112 111 110
    ∷ word 115 101 46 114 101 115 117 108
    ∷ word 116 0 0 0 0 0 0 0
    ∷ word 8 0 0 0 3 0 4 0
    ∷ word 0 0 255 255 0 0 0 0
    ∷ word 0 0 1 0 0 0 0 0
    ∷ word 0 0 0 0 0 0 0 0
    ∷ word 41 0 0 0 50 0 0 0
    ∷ word 0 0 0 0 0 0 0 0
    ∷ word 36 0 0 0 3 0 1 0
    ∷ word 48 0 0 0 2 0 1 0
    ∷ word 1 0 254 255 0 0 0 0
    ∷ word 0 0 1 0 1 0 0 0
    ∷ word 0 0 0 0 0 0 0 0
    ∷ word 45 0 0 0 146 0 0 0
    ∷ word 0 0 0 0 0 0 0 0
    ∷ word 48 0 0 0 3 0 1 0
    ∷ word 60 0 0 0 2 0 1 0
    ∷ word 101 114 114 111 114 0 0 0
    ∷ word 16 0 0 0 0 0 0 0
    ∷ word 134 219 94 120 210 131 243 245
    ∷ word 0 0 0 0 0 0 0 0
    ∷ word 0 0 0 0 0 0 0 0
    ∷ word 16 0 0 0 0 0 0 0
    ∷ word 0 0 0 0 0 0 0 0
    ∷ word 0 0 0 0 0 0 0 0
    ∷ word 99 111 110 110 101 99 116 105
    ∷ word 111 110 68 101 116 97 105 108
    ∷ word 115 0 0 0 0 0 0 0
    ∷ word 16 0 0 0 0 0 0 0
    ∷ word 138 193 154 43 8 159 243 181
    ∷ word 0 0 0 0 0 0 0 0
    ∷ word 0 0 0 0 0 0 0 0
    ∷ word 16 0 0 0 0 0 0 0
    ∷ word 0 0 0 0 0 0 0 0
    ∷ word 0 0 0 0 0 0 0 0
    ∷ []

abbrev field_types : List FieldType
field_types = struct_type ConnectionError.type_id ∷ struct_type ConnectionDetails.type_id ∷ []

abbrev raw_schema : RawSchema
raw_schema = record {
  encoded_node = encoded_node;
  field_types = field_types;
  nonunion_members = [];
  members_by_discriminant = 0 ∷ 1 ∷ [];
}

module _ (l : Layout) where
  -- The members of the union as `which` tells them apart.
  abbrev on_error : Result NotInSchema (WhichReader l) → Option (Value l)
  on_error (ok (error s)) = some (child ConnectionError.type_id s)
  on_error (ok (connection_details s)) = none
  on_error (err e) = none

  abbrev on_details : Result NotInSchema (WhichReader l) → Option (Value l)
  on_details (ok (error s)) = none
  on_details (ok (connection_details s)) = some (child ConnectionDetails.type_id s)
  on_details (err e) = none

-- The encoded node, the table of field types, the size, the type id and the accessors of
-- `result` agree: the node gives a struct the member that
-- `which` returns, and neither member for a tag that is not in the schema.
abbrev pub Agrees : (l : Layout) → Layout.Struct l → Type 0
Agrees l s = IsDescribedBy l raw_schema type_id struct_size s (
    (codes "error", on_error l (which l s))
    ∷ (codes "connectionDetails", on_details l (which l s))
    ∷ [])

pub connection_result-Agrees : (l : Layout) (s : Layout.Struct l) → Agrees l s
unfolding Wire.struct_at Wire.target Wire.list_at Wire.text_at Wire.data_at Bytes.as_bytes
connection_result-Agrees l s = (refl, refl, refl, refl, refl, ground arith)
