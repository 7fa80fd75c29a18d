-- ===== src/Schema/ConnectionResponse/Described.antt =====
-- The schema of `connection_response` that src/tunnelrpc_capnp.rs holds, and what it says of the
-- accessors.
use argo_rust.Base.{ℕ, some, List, [], ◌∷◌, codes, refl}
use argo_rust.CapnpRpc.Wire
use argo_rust.CapnpRpc.Bytes
use argo_rust.Schema.{Layout}
use argo_rust.Schema.Node.{word, RawSchema, FieldType, struct_type, IsDescribedBy, part}
use argo_rust.Schema.ConnectionResult
use argo_rust.Schema.ConnectionResponse.{type_id, struct_size, get_result}

abbrev encoded_node : List ℕ
encoded_node =
    word 0 0 0 0 5 0 6 0
    ∷ word 220 98 43 213 3 157 170 219
    ∷ word 16 0 0 0 1 0 1 0
    ∷ word 126 188 74 20 249 116 130 219
    ∷ word 1 0 7 0 0 0 0 0
    ∷ word 0 0 0 0 0 0 0 0
    ∷ word 21 0 0 0 26 1 0 0
    ∷ word 37 0 0 0 7 0 0 0
    ∷ word 0 0 0 0 0 0 0 0
    ∷ word 33 0 0 0 63 0 0 0
    ∷ word 0 0 0 0 0 0 0 0
    ∷ word 0 0 0 0 0 0 0 0
    ∷ word 116 117 110 110 101 108 114 112
    ∷ word 99 46 99 97 112 110 112 58
    ∷ word 67 111 110 110 101 99 116 105
    ∷ word 111 110 82 101 115 112 111 110
    ∷ word 115 101 0 0 0 0 0 0
    ∷ word 0 0 0 0 1 0 1 0
    ∷ word 4 0 0 0 3 0 4 0
    ∷ word 0 0 0 0 0 0 0 0
    ∷ word 1 0 0 0 0 0 0 0
    ∷ word 34 118 37 96 194 197 179 151
    ∷ word 13 0 0 0 58 0 0 0
    ∷ word 0 0 0 0 0 0 0 0
    ∷ word 0 0 0 0 0 0 0 0
    ∷ word 0 0 0 0 0 0 0 0
    ∷ word 114 101 115 117 108 116 0 0
    ∷ []

abbrev field_types : List FieldType
field_types = struct_type ConnectionResult.type_id ∷ []

abbrev raw_schema : RawSchema
raw_schema = record {
  encoded_node = encoded_node;
  field_types = field_types;
  nonunion_members = 0 ∷ [];
  members_by_discriminant = [];
}

-- The encoded node, the table of field types, the size, the type id and the accessors of
-- `connection_response` agree: the node gives a struct the group.
abbrev pub Agrees : (l : Layout) → Layout.Struct l → Type 0
Agrees l s =
    IsDescribedBy l raw_schema type_id struct_size s
      ((codes "result", some (part ConnectionResult.type_id (get_result l s))) ∷ [])

pub connection_response-Agrees : (l : Layout) (s : Layout.Struct l) → Agrees l s
unfolding Wire.struct_at Wire.target Wire.list_at Wire.text_at Wire.data_at Bytes.as_bytes
connection_response-Agrees l s = (refl, refl, refl, refl, refl, refl)
