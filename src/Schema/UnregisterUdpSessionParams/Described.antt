-- ===== src/Schema/UnregisterUdpSessionParams/Described.antt =====
-- The schema of `session_manager::unregister_udp_session_params` that src/tunnelrpc_capnp.rs holds, and what it says of the
-- accessors.
use argo_rust.Base.{ℕ, some, List, [], ◌∷◌, codes, refl}
use argo_rust.CapnpRpc.Wire
use argo_rust.CapnpRpc.Bytes
use argo_rust.Schema.{Layout}
use argo_rust.Schema.Node.{
  word, RawSchema, FieldType, text_type, data_type, IsDescribedBy, text, bytes,
}
use argo_rust.Schema.UnregisterUdpSessionParams.{type_id, struct_size, get_session_id, get_message}

abbrev encoded_node : List ℕ
encoded_node =
    word 0 0 0 0 5 0 6 0
    ∷ word 246 14 155 206 117 67 183 150
    ∷ word 31 0 0 0 1 0 0 0
    ∷ word 0 0 0 0 0 0 0 0
    ∷ word 2 0 7 0 0 0 0 0
    ∷ word 0 0 0 0 0 0 0 0
    ∷ word 21 0 0 0 218 1 0 0
    ∷ word 0 0 0 0 0 0 0 0
    ∷ word 0 0 0 0 0 0 0 0
    ∷ word 41 0 0 0 119 0 0 0
    ∷ word 0 0 0 0 0 0 0 0
    ∷ word 0 0 0 0 0 0 0 0
    ∷ word 116 117 110 110 101 108 114 112
    ∷ word 99 46 99 97 112 110 112 58
    ∷ word 83 101 115 115 105 111 110 77
    ∷ word 97 110 97 103 101 114 46 117
    ∷ word 110 114 101 103 105 115 116 101
    ∷ word 114 85 100 112 83 101 115 115
    ∷ word 105 111 110 36 80 97 114 97
    ∷ word 109 115 0 0 0 0 0 0
    ∷ word 8 0 0 0 3 0 4 0
    ∷ word 0 0 0 0 0 0 0 0
    ∷ word 0 0 1 0 0 0 0 0
    ∷ word 0 0 0 0 0 0 0 0
    ∷ word 41 0 0 0 82 0 0 0
    ∷ word 0 0 0 0 0 0 0 0
    ∷ word 40 0 0 0 3 0 1 0
    ∷ word 52 0 0 0 2 0 1 0
    ∷ word 1 0 0 0 1 0 0 0
    ∷ word 0 0 1 0 1 0 0 0
    ∷ word 0 0 0 0 0 0 0 0
    ∷ word 49 0 0 0 66 0 0 0
    ∷ word 0 0 0 0 0 0 0 0
    ∷ word 44 0 0 0 3 0 1 0
    ∷ word 56 0 0 0 2 0 1 0
    ∷ word 115 101 115 115 105 111 110 73
    ∷ word 100 0 0 0 0 0 0 0
    ∷ word 13 0 0 0 0 0 0 0
    ∷ word 0 0 0 0 0 0 0 0
    ∷ word 0 0 0 0 0 0 0 0
    ∷ word 0 0 0 0 0 0 0 0
    ∷ word 13 0 0 0 0 0 0 0
    ∷ word 0 0 0 0 0 0 0 0
    ∷ word 0 0 0 0 0 0 0 0
    ∷ word 109 101 115 115 97 103 101 0
    ∷ word 12 0 0 0 0 0 0 0
    ∷ word 0 0 0 0 0 0 0 0
    ∷ word 0 0 0 0 0 0 0 0
    ∷ word 0 0 0 0 0 0 0 0
    ∷ word 12 0 0 0 0 0 0 0
    ∷ word 0 0 0 0 0 0 0 0
    ∷ word 0 0 0 0 0 0 0 0
    ∷ []

abbrev field_types : List FieldType
field_types = data_type ∷ text_type ∷ []

abbrev raw_schema : RawSchema
raw_schema = record {
  encoded_node = encoded_node;
  field_types = field_types;
  nonunion_members = 0 ∷ 1 ∷ [];
  members_by_discriminant = [];
}

-- The encoded node, the table of field types, the size, the type id and the accessors of
-- `unregister_udp_session_params` agree: the node gives a struct the fields
-- that the accessors of their names read.
abbrev pub Agrees : (l : Layout) → Layout.Struct l → Type 0
Agrees l s = IsDescribedBy l raw_schema type_id struct_size s (
    (codes "sessionId", some (bytes (get_session_id l s)))
    ∷ (codes "message", some (text (get_message l s)))
    ∷ [])

pub unregister_udp_session_params-Agrees : (l : Layout) (s : Layout.Struct l) → Agrees l s
unfolding Wire.struct_at Wire.target Wire.list_at Wire.text_at Wire.data_at Bytes.as_bytes
unregister_udp_session_params-Agrees l s = (refl, refl, refl, refl, refl, refl)
