-- ===== src/Schema/RegisterUdpSessionResults/Described.antt =====
-- The schema of `session_manager::register_udp_session_results` that src/tunnelrpc_capnp.rs holds, and what it says of the
-- accessors.
use argo_rust.Base.{ℕ, some, List, [], ◌∷◌, codes, refl}
use argo_rust.CapnpRpc.Wire
use argo_rust.CapnpRpc.Bytes
use argo_rust.Schema.{Layout}
use argo_rust.Schema.Node.{word, RawSchema, FieldType, struct_type, IsDescribedBy, child}
use argo_rust.Schema.RegisterUdpSessionResponse
use argo_rust.Schema.RegisterUdpSessionResults.{type_id, struct_size, get_result}

abbrev encoded_node : List ℕ
encoded_node =
    word 0 0 0 0 5 0 6 0
    ∷ word 205 245 91 244 180 198 53 134
    ∷ word 31 0 0 0 1 0 0 0
    ∷ word 0 0 0 0 0 0 0 0
    ∷ word 1 0 7 0 0 0 0 0
    ∷ word 0 0 0 0 0 0 0 0
    ∷ word 21 0 0 0 210 1 0 0
    ∷ word 0 0 0 0 0 0 0 0
    ∷ word 0 0 0 0 0 0 0 0
    ∷ word 41 0 0 0 63 0 0 0
    ∷ word 0 0 0 0 0 0 0 0
    ∷ word 0 0 0 0 0 0 0 0
    ∷ word 116 117 110 110 101 108 114 112
    ∷ word 99 46 99 97 112 110 112 58
    ∷ word 83 101 115 115 105 111 110 77
    ∷ word 97 110 97 103 101 114 46 114
    ∷ word 101 103 105 115 116 101 114 85
    ∷ word 100 112 83 101 115 115 105 111
    ∷ word 110 36 82 101 115 117 108 116
    ∷ word 115 0 0 0 0 0 0 0
    ∷ word 4 0 0 0 3 0 4 0
    ∷ word 0 0 0 0 0 0 0 0
    ∷ word 0 0 1 0 0 0 0 0
    ∷ word 0 0 0 0 0 0 0 0
    ∷ word 13 0 0 0 58 0 0 0
    ∷ word 0 0 0 0 0 0 0 0
    ∷ word 8 0 0 0 3 0 1 0
    ∷ word 20 0 0 0 2 0 1 0
    ∷ word 114 101 115 117 108 116 0 0
    ∷ word 16 0 0 0 0 0 0 0
    ∷ word 135 102 242 193 16 82 109 171
    ∷ word 0 0 0 0 0 0 0 0
    ∷ word 0 0 0 0 0 0 0 0
    ∷ word 16 0 0 0 0 0 0 0
    ∷ word 0 0 0 0 0 0 0 0
    ∷ word 0 0 0 0 0 0 0 0
    ∷ []

abbrev field_types : List FieldType
field_types = struct_type RegisterUdpSessionResponse.type_id ∷ []

abbrev raw_schema : RawSchema
raw_schema = record {
  encoded_node = encoded_node;
  field_types = field_types;
  nonunion_members = 0 ∷ [];
  members_by_discriminant = [];
}

-- The encoded node, the table of field types, the size, the type id and the accessors of
-- `register_udp_session_results` agree: the node gives a struct the fields
-- that the accessors of their names read.
abbrev pub Agrees : (l : Layout) → Layout.Struct l → Type 0
Agrees l s =
    IsDescribedBy l raw_schema type_id struct_size s
      ((codes "result", some (child RegisterUdpSessionResponse.type_id (get_result l s))) ∷ [])

pub register_udp_session_results-Agrees : (l : Layout) (s : Layout.Struct l) → Agrees l s
unfolding Wire.struct_at Wire.target Wire.list_at Wire.text_at Wire.data_at Bytes.as_bytes
register_udp_session_results-Agrees l s = (refl, refl, refl, refl, refl, refl)
