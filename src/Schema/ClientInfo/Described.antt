-- ===== src/Schema/ClientInfo/Described.antt =====
-- The schema of `client_info` that src/tunnelrpc_capnp.rs holds, and what it says of the
-- accessors.
use argo_rust.Base.{ℕ, some, List, [], ◌∷◌, codes, refl}
use argo_rust.CapnpRpc.Wire
use argo_rust.CapnpRpc.Bytes
use argo_rust.Schema.{Layout}
use argo_rust.Schema.Node.{
  word, RawSchema, FieldType, text_type, data_type, text_list, IsDescribedBy, text, bytes, texts,
}
use argo_rust.Schema.ClientInfo.{
  type_id, struct_size, get_client_id, get_features, get_version, get_arch,
}

abbrev encoded_node : List ℕ
encoded_node =
    word 0 0 0 0 5 0 6 0
    ∷ word 75 17 47 91 20 208 206 131
    ∷ word 16 0 0 0 1 0 0 0
    ∷ word 126 188 74 20 249 116 130 219
    ∷ word 4 0 7 0 0 0 0 0
    ∷ word 0 0 0 0 0 0 0 0
    ∷ word 21 0 0 0 218 0 0 0
    ∷ word 33 0 0 0 7 0 0 0
    ∷ word 0 0 0 0 0 0 0 0
    ∷ word 29 0 0 0 231 0 0 0
    ∷ word 0 0 0 0 0 0 0 0
    ∷ word 0 0 0 0 0 0 0 0
    ∷ word 116 117 110 110 101 108 114 112
    ∷ word 99 46 99 97 112 110 112 58
    ∷ word 67 108 105 101 110 116 73 110
    ∷ word 102 111 0 0 0 0 0 0
    ∷ word 0 0 0 0 1 0 1 0
    ∷ word 16 0 0 0 3 0 4 0
    ∷ word 0 0 0 0 0 0 0 0
    ∷ word 0 0 1 0 0 0 0 0
    ∷ word 0 0 0 0 0 0 0 0
    ∷ word 97 0 0 0 74 0 0 0
    ∷ word 0 0 0 0 0 0 0 0
    ∷ word 96 0 0 0 3 0 1 0
    ∷ word 108 0 0 0 2 0 1 0
    ∷ word 1 0 0 0 1 0 0 0
    ∷ word 0 0 1 0 1 0 0 0
    ∷ word 0 0 0 0 0 0 0 0
    ∷ word 105 0 0 0 74 0 0 0
    ∷ word 0 0 0 0 0 0 0 0
    ∷ word 104 0 0 0 3 0 1 0
    ∷ word 132 0 0 0 2 0 1 0
    ∷ word 2 0 0 0 2 0 0 0
    ∷ word 0 0 1 0 2 0 0 0
    ∷ word 0 0 0 0 0 0 0 0
    ∷ word 129 0 0 0 66 0 0 0
    ∷ word 0 0 0 0 0 0 0 0
    ∷ word 124 0 0 0 3 0 1 0
    ∷ word 136 0 0 0 2 0 1 0
    ∷ word 3 0 0 0 3 0 0 0
    ∷ word 0 0 1 0 3 0 0 0
    ∷ word 0 0 0 0 0 0 0 0
    ∷ word 133 0 0 0 42 0 0 0
    ∷ word 0 0 0 0 0 0 0 0
    ∷ word 128 0 0 0 3 0 1 0
    ∷ word 140 0 0 0 2 0 1 0
    ∷ word 99 108 105 101 110 116 73 100
    ∷ word 0 0 0 0 0 0 0 0
    ∷ word 13 0 0 0 0 0 0 0
    ∷ word 0 0 0 0 0 0 0 0
    ∷ word 0 0 0 0 0 0 0 0
    ∷ word 0 0 0 0 0 0 0 0
    ∷ word 13 0 0 0 0 0 0 0
    ∷ word 0 0 0 0 0 0 0 0
    ∷ word 0 0 0 0 0 0 0 0
    ∷ word 102 101 97 116 117 114 101 115
    ∷ word 0 0 0 0 0 0 0 0
    ∷ word 14 0 0 0 0 0 0 0
    ∷ word 0 0 0 0 0 0 0 0
    ∷ word 0 0 0 0 0 0 0 0
    ∷ word 0 0 0 0 3 0 1 0
    ∷ word 12 0 0 0 0 0 0 0
    ∷ word 0 0 0 0 0 0 0 0
    ∷ word 0 0 0 0 0 0 0 0
    ∷ word 0 0 0 0 0 0 0 0
    ∷ word 14 0 0 0 0 0 0 0
    ∷ word 0 0 0 0 0 0 0 0
    ∷ word 0 0 0 0 0 0 0 0
    ∷ word 118 101 114 115 105 111 110 0
    ∷ word 12 0 0 0 0 0 0 0
    ∷ word 0 0 0 0 0 0 0 0
    ∷ word 0 0 0 0 0 0 0 0
    ∷ word 0 0 0 0 0 0 0 0
    ∷ word 12 0 0 0 0 0 0 0
    ∷ word 0 0 0 0 0 0 0 0
    ∷ word 0 0 0 0 0 0 0 0
    ∷ word 97 114 99 104 0 0 0 0
    ∷ word 12 0 0 0 0 0 0 0
    ∷ word 0 0 0 0 0 0 0 0
    ∷ word 0 0 0 0 0 0 0 0
    ∷ word 0 0 0 0 0 0 0 0
    ∷ word 12 0 0 0 0 0 0 0
    ∷ word 0 0 0 0 0 0 0 0
    ∷ word 0 0 0 0 0 0 0 0
    ∷ []

abbrev field_types : List FieldType
field_types = data_type ∷ text_list ∷ text_type ∷ text_type ∷ []

abbrev raw_schema : RawSchema
raw_schema = record {
  encoded_node = encoded_node;
  field_types = field_types;
  nonunion_members = 0 ∷ 1 ∷ 2 ∷ 3 ∷ [];
  members_by_discriminant = [];
}

-- The encoded node, the table of field types, the size, the type id and the accessors of
-- `client_info` agree: the node gives a struct the fields
-- that the accessors of their names read.
abbrev pub Agrees : (l : Layout) → Layout.Struct l → Type 0
Agrees l s = IsDescribedBy l raw_schema type_id struct_size s (
    (codes "clientId", some (bytes (get_client_id l s)))
    ∷ (codes "features", some (texts (get_features l s)))
    ∷ (codes "version", some (text (get_version l s)))
    ∷ (codes "arch", some (text (get_arch l s)))
    ∷ [])

pub client_info-Agrees : (l : Layout) (s : Layout.Struct l) → Agrees l s
unfolding Wire.struct_at Wire.target Wire.list_at Wire.text_at Wire.data_at Bytes.as_bytes
client_info-Agrees l s = (refl, refl, refl, refl, refl, refl)
