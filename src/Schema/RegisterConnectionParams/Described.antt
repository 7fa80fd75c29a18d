-- ===== src/Schema/RegisterConnectionParams/Described.antt =====
-- The schema of `registration_server::register_connection_params` that src/tunnelrpc_capnp.rs holds, and what it says of the
-- accessors.
use argo_rust.Base.{ℕ, some, List, [], ◌∷◌, codes, refl}
use argo_rust.CapnpRpc.Wire
use argo_rust.CapnpRpc.Bytes
use argo_rust.Schema.{Layout, u8}
use argo_rust.Schema.Node.{
  word, RawSchema, FieldType, primitive, data_type, struct_type, IsDescribedBy, number, bytes,
  child,
}
use argo_rust.Schema.ConnectionOptions
use argo_rust.Schema.TunnelAuth
use argo_rust.Schema.RegisterConnectionParams.{
  type_id, struct_size, get_auth, get_tunnel_id, get_conn_index, get_options,
}

abbrev encoded_node : List ℕ
encoded_node =
    word 0 0 0 0 5 0 6 0
    ∷ word 238 166 234 143 236 109 100 230
    ∷ word 35 0 0 0 1 0 1 0
    ∷ word 0 0 0 0 0 0 0 0
    ∷ word 3 0 7 0 0 0 0 0
    ∷ word 0 0 0 0 0 0 0 0
    ∷ word 21 0 0 0 234 1 0 0
    ∷ word 0 0 0 0 0 0 0 0
    ∷ word 0 0 0 0 0 0 0 0
    ∷ word 41 0 0 0 231 0 0 0
    ∷ word 0 0 0 0 0 0 0 0
    ∷ word 0 0 0 0 0 0 0 0
    ∷ word 116 117 110 110 101 108 114 112
    ∷ word 99 46 99 97 112 110 112 58
    ∷ word 82 101 103 105 115 116 114 97
    ∷ word 116 105 111 110 83 101 114 118
    ∷ word 101 114 46 114 101 103 105 115
    ∷ word 116 101 114 67 111 110 110 101
    ∷ word 99 116 105 111 110 36 80 97
    ∷ word 114 97 109 115 0 0 0 0
    ∷ word 16 0 0 0 3 0 4 0
    ∷ word 0 0 0 0 0 0 0 0
    ∷ word 0 0 1 0 0 0 0 0
    ∷ word 0 0 0 0 0 0 0 0
    ∷ word 97 0 0 0 42 0 0 0
    ∷ word 0 0 0 0 0 0 0 0
    ∷ word 92 0 0 0 3 0 1 0
    ∷ word 104 0 0 0 2 0 1 0
    ∷ word 1 0 0 0 1 0 0 0
    ∷ word 0 0 1 0 1 0 0 0
    ∷ word 0 0 0 0 0 0 0 0
    ∷ word 101 0 0 0 74 0 0 0
    ∷ word 0 0 0 0 0 0 0 0
    ∷ word 100 0 0 0 3 0 1 0
    ∷ word 112 0 0 0 2 0 1 0
    ∷ word 2 0 0 0 0 0 0 0
    ∷ word 0 0 1 0 2 0 0 0
    ∷ word 0 0 0 0 0 0 0 0
    ∷ word 109 0 0 0 82 0 0 0
    ∷ word 0 0 0 0 0 0 0 0
    ∷ word 108 0 0 0 3 0 1 0
    ∷ word 120 0 0 0 2 0 1 0
    ∷ word 3 0 0 0 2 0 0 0
    ∷ word 0 0 1 0 3 0 0 0
    ∷ word 0 0 0 0 0 0 0 0
    ∷ word 117 0 0 0 66 0 0 0
    ∷ word 0 0 0 0 0 0 0 0
    ∷ word 112 0 0 0 3 0 1 0
    ∷ word 124 0 0 0 2 0 1 0
    ∷ word 97 117 116 104 0 0 0 0
    ∷ word 16 0 0 0 0 0 0 0
    ∷ word 63 70 205 185 26 51 150 148
    ∷ word 0 0 0 0 0 0 0 0
    ∷ word 0 0 0 0 0 0 0 0
    ∷ word 16 0 0 0 0 0 0 0
    ∷ word 0 0 0 0 0 0 0 0
    ∷ word 0 0 0 0 0 0 0 0
    ∷ word 116 117 110 110 101 108 73 100
    ∷ word 0 0 0 0 0 0 0 0
    ∷ word 13 0 0 0 0 0 0 0
    ∷ word 0 0 0 0 0 0 0 0
    ∷ word 0 0 0 0 0 0 0 0
    ∷ word 0 0 0 0 0 0 0 0
    ∷ word 13 0 0 0 0 0 0 0
    ∷ word 0 0 0 0 0 0 0 0
    ∷ word 0 0 0 0 0 0 0 0
    ∷ word 99 111 110 110 73 110 100 101
    ∷ word 120 0 0 0 0 0 0 0
    ∷ word 6 0 0 0 0 0 0 0
    ∷ word 0 0 0 0 0 0 0 0
    ∷ word 0 0 0 0 0 0 0 0
    ∷ word 0 0 0 0 0 0 0 0
    ∷ word 6 0 0 0 0 0 0 0
    ∷ word 0 0 0 0 0 0 0 0
    ∷ word 0 0 0 0 0 0 0 0
    ∷ word 111 112 116 105 111 110 115 0
    ∷ word 16 0 0 0 0 0 0 0
    ∷ word 4 93 3 254 97 152 191 180
    ∷ word 0 0 0 0 0 0 0 0
    ∷ word 0 0 0 0 0 0 0 0
    ∷ word 16 0 0 0 0 0 0 0
    ∷ word 0 0 0 0 0 0 0 0
    ∷ word 0 0 0 0 0 0 0 0
    ∷ []

abbrev field_types : List FieldType
field_types =
    struct_type TunnelAuth.type_id
    ∷ data_type
    ∷ primitive u8
    ∷ struct_type ConnectionOptions.type_id
    ∷ []

abbrev raw_schema : RawSchema
raw_schema = record {
  encoded_node = encoded_node;
  field_types = field_types;
  nonunion_members = 0 ∷ 1 ∷ 2 ∷ 3 ∷ [];
  members_by_discriminant = [];
}

-- The encoded node, the table of field types, the size, the type id and the accessors of
-- `register_connection_params` agree: the node gives a struct the fields
-- that the accessors of their names read.
abbrev pub Agrees : (l : Layout) → Layout.Struct l → Type 0
Agrees l s = IsDescribedBy l raw_schema type_id struct_size s (
    (codes "auth", some (child TunnelAuth.type_id (get_auth l s)))
    ∷ (codes "tunnelId", some (bytes (get_tunnel_id l s)))
    ∷ (codes "connIndex", some (number u8 (get_conn_index l s)))
    ∷ (codes "options", some (child ConnectionOptions.type_id (get_options l s)))
    ∷ [])

pub register_connection_params-Agrees : (l : Layout) (s : Layout.Struct l) → Agrees l s
unfolding Wire.struct_at Wire.target Wire.list_at Wire.text_at Wire.data_at Bytes.as_bytes
register_connection_params-Agrees l s = (refl, refl, refl, refl, refl, refl)
