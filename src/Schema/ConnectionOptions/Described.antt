-- ===== src/Schema/ConnectionOptions/Described.antt =====
-- The schema of `connection_options` that src/tunnelrpc_capnp.rs holds, and what it says of the
-- accessors.
use argo_rust.Base.{ℕ, some, List, [], ◌∷◌, codes, refl}
use argo_rust.CapnpRpc.Wire
use argo_rust.CapnpRpc.Bytes
use argo_rust.Schema.{Layout, u8}
use argo_rust.Schema.Node.{
  word, RawSchema, FieldType, bool_type, primitive, data_type, struct_type, IsDescribedBy, flag,
  number, bytes, child,
}
use argo_rust.Schema.ClientInfo
use argo_rust.Schema.ConnectionOptions.{
  type_id, struct_size, get_client, get_origin_local_ip, get_replace_existing,
  get_compression_quality, get_num_previous_attempts,
}

abbrev encoded_node : List ℕ
encoded_node =
    word 0 0 0 0 5 0 6 0
    ∷ word 4 93 3 254 97 152 191 180
    ∷ word 16 0 0 0 1 0 1 0
    ∷ word 126 188 74 20 249 116 130 219
    ∷ word 2 0 7 0 0 0 0 0
    ∷ word 0 0 0 0 0 0 0 0
    ∷ word 21 0 0 0 18 1 0 0
    ∷ word 37 0 0 0 7 0 0 0
    ∷ word 0 0 0 0 0 0 0 0
    ∷ word 33 0 0 0 31 1 0 0
    ∷ word 0 0 0 0 0 0 0 0
    ∷ word 0 0 0 0 0 0 0 0
    ∷ word 116 117 110 110 101 108 114 112
    ∷ word 99 46 99 97 112 110 112 58
    ∷ word 67 111 110 110 101 99 116 105
    ∷ word 111 110 79 112 116 105 111 110
    ∷ word 115 0 0 0 0 0 0 0
    ∷ word 0 0 0 0 1 0 1 0
    ∷ word 20 0 0 0 3 0 4 0
    ∷ word 0 0 0 0 0 0 0 0
    ∷ word 0 0 1 0 0 0 0 0
    ∷ word 0 0 0 0 0 0 0 0
    ∷ word 125 0 0 0 58 0 0 0
    ∷ word 0 0 0 0 0 0 0 0
    ∷ word 120 0 0 0 3 0 1 0
    ∷ word 132 0 0 0 2 0 1 0
    ∷ word 1 0 0 0 1 0 0 0
    ∷ word 0 0 1 0 1 0 0 0
    ∷ word 0 0 0 0 0 0 0 0
    ∷ word 129 0 0 0 114 0 0 0
    ∷ word 0 0 0 0 0 0 0 0
    ∷ word 128 0 0 0 3 0 1 0
    ∷ word 140 0 0 0 2 0 1 0
    ∷ word 2 0 0 0 0 0 0 0
    ∷ word 0 0 1 0 2 0 0 0
    ∷ word 0 0 0 0 0 0 0 0
    ∷ word 137 0 0 0 130 0 0 0
    ∷ word 0 0 0 0 0 0 0 0
    ∷ word 136 0 0 0 3 0 1 0
    ∷ word 148 0 0 0 2 0 1 0
    ∷ word 3 0 0 0 1 0 0 0
    ∷ word 0 0 1 0 3 0 0 0
    ∷ word 0 0 0 0 0 0 0 0
    ∷ word 145 0 0 0 154 0 0 0
    ∷ word 0 0 0 0 0 0 0 0
    ∷ word 148 0 0 0 3 0 1 0
    ∷ word 160 0 0 0 2 0 1 0
    ∷ word 4 0 0 0 2 0 0 0
    ∷ word 0 0 1 0 4 0 0 0
    ∷ word 0 0 0 0 0 0 0 0
    ∷ word 157 0 0 0 162 0 0 0
    ∷ word 0 0 0 0 0 0 0 0
    ∷ word 160 0 0 0 3 0 1 0
    ∷ word 172 0 0 0 2 0 1 0
    ∷ word 99 108 105 101 110 116 0 0
    ∷ word 16 0 0 0 0 0 0 0
    ∷ word 75 17 47 91 20 208 206 131
    ∷ word 0 0 0 0 0 0 0 0
    ∷ word 0 0 0 0 0 0 0 0
    ∷ word 16 0 0 0 0 0 0 0
    ∷ word 0 0 0 0 0 0 0 0
    ∷ word 0 0 0 0 0 0 0 0
    ∷ word 111 114 105 103 105 110 76 111
    ∷ word 99 97 108 73 112 0 0 0
    ∷ word 13 0 0 0 0 0 0 0
    ∷ word 0 0 0 0 0 0 0 0
    ∷ word 0 0 0 0 0 0 0 0
    ∷ word 0 0 0 0 0 0 0 0
    ∷ word 13 0 0 0 0 0 0 0
    ∷ word 0 0 0 0 0 0 0 0
    ∷ word 0 0 0 0 0 0 0 0
    ∷ word 114 101 112 108 97 99 101 69
    ∷ word 120 105 115 116 105 110 103 0
    ∷ word 1 0 0 0 0 0 0 0
    ∷ word 0 0 0 0 0 0 0 0
    ∷ word 0 0 0 0 0 0 0 0
    ∷ word 0 0 0 0 0 0 0 0
    ∷ word 1 0 0 0 0 0 0 0
    ∷ word 0 0 0 0 0 0 0 0
    ∷ word 0 0 0 0 0 0 0 0
    ∷ word 99 111 109 112 114 101 115 115
    ∷ word 105 111 110 81 117 97 108 105
    ∷ word 116 121 0 0 0 0 0 0
    ∷ word 6 0 0 0 0 0 0 0
    ∷ word 0 0 0 0 0 0 0 0
    ∷ word 0 0 0 0 0 0 0 0
    ∷ word 0 0 0 0 0 0 0 0
    ∷ word 6 0 0 0 0 0 0 0
    ∷ word 0 0 0 0 0 0 0 0
    ∷ word 0 0 0 0 0 0 0 0
    ∷ word 110 117 109 80 114 101 118 105
    ∷ word 111 117 115 65 116 116 101 109
    ∷ word 112 116 115 0 0 0 0 0
    ∷ word 6 0 0 0 0 0 0 0
    ∷ word 0 0 0 0 0 0 0 0
    ∷ word 0 0 0 0 0 0 0 0
    ∷ word 0 0 0 0 0 0 0 0
    ∷ word 6 0 0 0 0 0 0 0
    ∷ word 0 0 0 0 0 0 0 0
    ∷ word 0 0 0 0 0 0 0 0
    ∷ []

abbrev field_types : List FieldType
field_types =
    struct_type ClientInfo.type_id ∷ data_type ∷ bool_type ∷ primitive u8 ∷ primitive u8 ∷ []

abbrev raw_schema : RawSchema
raw_schema = record {
  encoded_node = encoded_node;
  field_types = field_types;
  nonunion_members = 0 ∷ 1 ∷ 2 ∷ 3 ∷ 4 ∷ [];
  members_by_discriminant = [];
}

-- The encoded node, the table of field types, the size, the type id and the accessors of
-- `connection_options` agree: the node gives a struct the fields
-- that the accessors of their names read.
abbrev pub Agrees : (l : Layout) → Layout.Struct l → Type 0
Agrees l s = IsDescribedBy l raw_schema type_id struct_size s (
    (codes "client", some (child ClientInfo.type_id (get_client l s)))
    ∷ (codes "originLocalIp", some (bytes (get_origin_local_ip l s)))
    ∷ (codes "replaceExisting", some (flag (get_replace_existing l s)))
    ∷ (codes "compressionQuality", some (number u8 (get_compression_quality l s)))
    ∷ (codes "numPreviousAttempts", some (number u8 (get_num_previous_attempts l s)))
    ∷ [])

pub connection_options-Agrees : (l : Layout) (s : Layout.Struct l) → Agrees l s
unfolding Wire.struct_at Wire.target Wire.list_at Wire.text_at Wire.data_at Bytes.as_bytes
connection_options-Agrees l s = (refl, refl, refl, refl, refl, refl)
