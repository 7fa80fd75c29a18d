-- ===== src/Schema/RegisterUdpSessionResponse/Described.antt =====
-- The schema of `register_udp_session_response` that src/tunnelrpc_capnp.rs holds, and what it says of the
-- accessors.
use argo_rust.Base.{ℕ, some, List, [], ◌∷◌, codes, refl}
use argo_rust.CapnpRpc.Wire
use argo_rust.CapnpRpc.Bytes
use argo_rust.Schema.{Layout}
use argo_rust.Schema.Node.{
  word, RawSchema, FieldType, text_type, data_type, IsDescribedBy, text, bytes,
}
use argo_rust.Schema.RegisterUdpSessionResponse.{type_id, struct_size, get_err, get_spans}

abbrev encoded_node : List ℕ
encoded_node =
    word 0 0 0 0 5 0 6 0
    ∷ word 135 102 242 193 16 82 109 171
    ∷ word 16 0 0 0 1 0 0 0
    ∷ word 126 188 74 20 249 116 130 219
    ∷ word 2 0 7 0 0 0 0 0
    ∷ word 0 0 0 0 0 0 0 0
    ∷ word 21 0 0 0 90 1 0 0
    ∷ word 41 0 0 0 7 0 0 0
    ∷ word 0 0 0 0 0 0 0 0
    ∷ word 37 0 0 0 119 0 0 0
    ∷ word 0 0 0 0 0 0 0 0
    ∷ word 0 0 0 0 0 0 0 0
    ∷ word 116 117 110 110 101 108 114 112
    ∷ word 99 46 99 97 112 110 112 58
    ∷ word 82 101 103 105 115 116 101 114
    ∷ word 85 100 112 83 101 115 115 105
    ∷ word 111 110 82 101 115 112 111 110
    ∷ word 115 101 0 0 0 0 0 0
    ∷ word 0 0 0 0 1 0 1 0
    ∷ word 8 0 0 0 3 0 4 0
    ∷ word 0 0 0 0 0 0 0 0
    ∷ word 0 0 1 0 0 0 0 0
    ∷ word 0 0 0 0 0 0 0 0
    ∷ word 41 0 0 0 34 0 0 0
    ∷ word 0 0 0 0 0 0 0 0
    ∷ word 36 0 0 0 3 0 1 0
    ∷ word 48 0 0 0 2 0 1 0
    ∷ word 1 0 0 0 1 0 0 0
    ∷ word 0 0 1 0 1 0 0 0
    ∷ word 0 0 0 0 0 0 0 0
    ∷ word 45 0 0 0 50 0 0 0
    ∷ word 0 0 0 0 0 0 0 0
    ∷ word 40 0 0 0 3 0 1 0
    ∷ word 52 0 0 0 2 0 1 0
    ∷ word 101 114 114 0 0 0 0 0
    ∷ word 12 0 0 0 0 0 0 0
    ∷ word 0 0 0 0 0 0 0 0
    ∷ word 0 0 0 0 0 0 0 0
    ∷ word 0 0 0 0 0 0 0 0
    ∷ word 12 0 0 0 0 0 0 0
    ∷ word 0 0 0 0 0 0 0 0
    ∷ word 0 0 0 0 0 0 0 0
    ∷ word 115 112 97 110 115 0 0 0
    ∷ word 13 0 0 0 0 0 0 0
    ∷ word 0 0 0 0 0 0 0 0
    ∷ word 0 0 0 0 0 0 0 0
    ∷ word 0 0 0 0 0 0 0 0
    ∷ word 13 0 0 0 0 0 0 0
    ∷ word 0 0 0 0 0 0 0 0
    ∷ word 0 0 0 0 0 0 0 0
    ∷ []

abbrev field_types : List FieldType
field_types = text_type ∷ data_type ∷ []

abbrev raw_schema : RawSchema
raw_schema = record {
  encoded_node = encoded_node;
  field_types = field_types;
  nonunion_members = 0 ∷ 1 ∷ [];
  members_by_discriminant = [];
}

-- The encoded node, the table of field types, the size, the type id and the accessors of
-- `register_udp_session_response` agree: the node gives a struct the fields
-- that the accessors of their names read.
abbrev pub Agrees : (l : Layout) → Layout.Struct l → Type 0
Agrees l s =
    IsDescribedBy l raw_schema type_id struct_size s (
      (codes "err", some (text (get_err l s))) ∷ (codes "spans", some (bytes (get_spans l s))) ∷ [])

pub register_udp_session_response-Agrees : (l : Layout) (s : Layout.Struct l) → Agrees l s
unfolding Wire.struct_at Wire.target Wire.list_at Wire.text_at Wire.data_at Bytes.as_bytes
register_udp_session_response-Agrees l s = (refl, refl, refl, refl, refl, refl)
