-- ===== src/Schema/ConnectionDetails/Described.antt =====
-- The schema of `connection_details` that src/tunnelrpc_capnp.rs holds, and what it says of the
-- accessors.
use argo_rust.Base.{ℕ, some, List, [], ◌∷◌, codes, refl}
use argo_rust.CapnpRpc.Wire
use argo_rust.CapnpRpc.Bytes
use argo_rust.Schema.{Layout}
use argo_rust.Schema.Node.{
  word, RawSchema, FieldType, bool_type, text_type, data_type, IsDescribedBy, flag, text, bytes,
}
use argo_rust.Schema.ConnectionDetails.{
  type_id, struct_size, get_uuid, get_location_name, get_tunnel_is_remotely_managed,
}

abbrev encoded_node : List ℕ
encoded_node =
    word 0 0 0 0 5 0 6 0
    ∷ word 138 193 154 43 8 159 243 181
    ∷ word 16 0 0 0 1 0 1 0
    ∷ word 126 188 74 20 249 116 130 219
    ∷ word 2 0 7 0 0 0 0 0
    ∷ word 0 0 0 0 0 0 0 0
    ∷ word 21 0 0 0 18 1 0 0
    ∷ word 37 0 0 0 7 0 0 0
    ∷ word 0 0 0 0 0 0 0 0
    ∷ word 33 0 0 0 175 0 0 0
    ∷ word 0 0 0 0 0 0 0 0
    ∷ word 0 0 0 0 0 0 0 0
    ∷ word 116 117 110 110 101 108 114 112
    ∷ word 99 46 99 97 112 110 112 58
    ∷ word 67 111 110 110 101 99 116 105
    ∷ word 111 110 68 101 116 97 105 108
    ∷ word 115 0 0 0 0 0 0 0
    ∷ word 0 0 0 0 1 0 1 0
    ∷ word 12 0 0 0 3 0 4 0
    ∷ word 0 0 0 0 0 0 0 0
    ∷ word 0 0 1 0 0 0 0 0
    ∷ word 0 0 0 0 0 0 0 0
    ∷ word 69 0 0 0 42 0 0 0
    ∷ word 0 0 0 0 0 0 0 0
    ∷ word 64 0 0 0 3 0 1 0
    ∷ word 76 0 0 0 2 0 1 0
    ∷ word 1 0 0 0 1 0 0 0
    ∷ word 0 0 1 0 1 0 0 0
    ∷ word 0 0 0 0 0 0 0 0
    ∷ word 73 0 0 0 106 0 0 0
    ∷ word 0 0 0 0 0 0 0 0
    ∷ word 72 0 0 0 3 0 1 0
    ∷ word 84 0 0 0 2 0 1 0
    ∷ word 2 0 0 0 0 0 0 0
    ∷ word 0 0 1 0 2 0 0 0
    ∷ word 0 0 0 0 0 0 0 0
    ∷ word 81 0 0 0 194 0 0 0
    ∷ word 0 0 0 0 0 0 0 0
    ∷ word 84 0 0 0 3 0 1 0
    ∷ word 96 0 0 0 2 0 1 0
    ∷ word 117 117 105 100 0 0 0 0
    ∷ word 13 0 0 0 0 0 0 0
    ∷ word 0 0 0 0 0 0 0 0
    ∷ word 0 0 0 0 0 0 0 0
    ∷ word 0 0 0 0 0 0 0 0
    ∷ word 13 0 0 0 0 0 0 0
    ∷ word 0 0 0 0 0 0 0 0
    ∷ word 0 0 0 0 0 0 0 0
    ∷ word 108 111 99 97 116 105 111 110
    ∷ word 78 97 109 101 0 0 0 0
    ∷ word 12 0 0 0 0 0 0 0
    ∷ word 0 0 0 0 0 0 0 0
    ∷ word 0 0 0 0 0 0 0 0
    ∷ word 0 0 0 0 0 0 0 0
    ∷ word 12 0 0 0 0 0 0 0
    ∷ word 0 0 0 0 0 0 0 0
    ∷ word 0 0 0 0 0 0 0 0
    ∷ word 116 117 110 110 101 108 73 115
    ∷ word 82 101 109 111 116 101 108 121
    ∷ word 77 97 110 97 103 101 100 0
    ∷ word 1 0 0 0 0 0 0 0
    ∷ word 0 0 0 0 0 0 0 0
    ∷ word 0 0 0 0 0 0 0 0
    ∷ word 0 0 0 0 0 0 0 0
    ∷ word 1 0 0 0 0 0 0 0
    ∷ word 0 0 0 0 0 0 0 0
    ∷ word 0 0 0 0 0 0 0 0
    ∷ []

abbrev field_types : List FieldType
field_types = data_type ∷ text_type ∷ bool_type ∷ []

abbrev raw_schema : RawSchema
raw_schema = record {
  encoded_node = encoded_node;
  field_types = field_types;
  nonunion_members = 0 ∷ 1 ∷ 2 ∷ [];
  members_by_discriminant = [];
}

-- The encoded node, the table of field types, the size, the type id and the accessors of
-- `connection_details` agree: the node gives a struct the fields
-- that the accessors of their names read.
abbrev pub Agrees : (l : Layout) → Layout.Struct l → Type 0
Agrees l s = IsDescribedBy l raw_schema type_id struct_size s (
    (codes "uuid", some (bytes (get_uuid l s)))
    ∷ (codes "locationName", some (text (get_location_name l s)))
    ∷ (codes "tunnelIsRemotelyManaged", some (flag (get_tunnel_is_remotely_managed l s)))
    ∷ [])

pub connection_details-Agrees : (l : Layout) (s : Layout.Struct l) → Agrees l s
unfolding Wire.struct_at Wire.target Wire.list_at Wire.text_at Wire.data_at Bytes.as_bytes
connection_details-Agrees l s = (refl, refl, refl, refl, refl, refl)
