-- ===== src/Schema/UnregisterConnectionResults/Described.antt =====
-- The schema of `registration_server::unregister_connection_results` that src/tunnelrpc_capnp.rs holds, and what it says of the
-- accessors.
use argo_rust.Base.{ℕ, List, [], ◌∷◌, refl}
use argo_rust.CapnpRpc.Wire
use argo_rust.CapnpRpc.Bytes
use argo_rust.Schema.{Layout}
use argo_rust.Schema.Node.{word, RawSchema, FieldType, IsDescribedBy}
use argo_rust.Schema.UnregisterConnectionResults.{type_id, struct_size}

abbrev encoded_node : List ℕ
encoded_node =
    word 0 0 0 0 5 0 6 0
    ∷ word 173 30 75 9 120 229 70 176
    ∷ word 35 0 0 0 1 0 0 0
    ∷ word 0 0 0 0 0 0 0 0
    ∷ word 0 0 7 0 0 0 0 0
    ∷ word 0 0 0 0 0 0 0 0
    ∷ word 21 0 0 0 2 2 0 0
    ∷ word 0 0 0 0 0 0 0 0
    ∷ word 0 0 0 0 0 0 0 0
    ∷ word 0 0 0 0 0 0 0 0
    ∷ word 0 0 0 0 0 0 0 0
    ∷ word 0 0 0 0 0 0 0 0
    ∷ word 116 117 110 110 101 108 114 112
    ∷ word 99 46 99 97 112 110 112 58
    ∷ word 82 101 103 105 115 116 114 97
    ∷ word 116 105 111 110 83 101 114 118
    ∷ word 101 114 46 117 110 114 101 103
    ∷ word 105 115 116 101 114 67 111 110
    ∷ word 110 101 99 116 105 111 110 36
    ∷ word 82 101 115 117 108 116 115 0
    ∷ []

abbrev field_types : List FieldType
field_types = []

abbrev raw_schema : RawSchema
raw_schema = record {
  encoded_node = encoded_node;
  field_types = field_types;
  nonunion_members = [];
  members_by_discriminant = [];
}

-- The encoded node, the table of field types, the size, the type id and the accessors of
-- `unregister_connection_results` agree: the node gives a struct no
-- fields.
abbrev pub Agrees : (l : Layout) → Layout.Struct l → Type 0
Agrees l s = IsDescribedBy l raw_schema type_id struct_size s []

pub unregister_connection_results-Agrees : (l : Layout) (s : Layout.Struct l) → Agrees l s
unfolding Wire.struct_at Wire.target Wire.list_at Wire.text_at Wire.data_at Bytes.as_bytes
unregister_connection_results-Agrees l s = (refl, refl, refl, refl, refl, refl)
