-- ===== src/Schema/UpdateConfigurationResponse/Described.antt =====
-- The schema of `update_configuration_response` that src/tunnelrpc_capnp.rs holds, and what it says of the
-- accessors.
use argo_rust.Base.{ℕ, some, List, [], ◌∷◌, codes, refl}
use argo_rust.CapnpRpc.Wire
use argo_rust.CapnpRpc.Bytes
use argo_rust.Schema.{Layout, i32}
use argo_rust.Schema.Node.{
  word, RawSchema, FieldType, primitive, text_type, IsDescribedBy, number, text,
}
use argo_rust.Schema.UpdateConfigurationResponse.{
  type_id, struct_size, get_latest_applied_version, get_err,
}

abbrev encoded_node : List ℕ
encoded_node =
    word 0 0 0 0 5 0 6 0
    ∷ word 249 92 160 75 105 255 88 219
    ∷ word 16 0 0 0 1 0 1 0
    ∷ word 126 188 74 20 249 116 130 219
    ∷ word 1 0 7 0 0 0 0 0
    ∷ word 0 0 0 0 0 0 0 0
    ∷ word 21 0 0 0 98 1 0 0
    ∷ word 41 0 0 0 7 0 0 0
    ∷ word 0 0 0 0 0 0 0 0
    ∷ word 37 0 0 0 119 0 0 0
    ∷ word 0 0 0 0 0 0 0 0
    ∷ word 0 0 0 0 0 0 0 0
    ∷ word 116 117 110 110 101 108 114 112
    ∷ word 99 46 99 97 112 110 112 58
    ∷ word 85 112 100 97 116 101 67 111
    ∷ word 110 102 105 103 117 114 97 116
    ∷ word 105 111 110 82 101 115 112 111
    ∷ word 110 115 101 0 0 0 0 0
    ∷ word 0 0 0 0 1 0 1 0
    ∷ word 8 0 0 0 3 0 4 0
    ∷ word 0 0 0 0 0 0 0 0
    ∷ word 0 0 1 0 0 0 0 0
    ∷ word 0 0 0 0 0 0 0 0
    ∷ word 41 0 0 0 170 0 0 0
    ∷ word 0 0 0 0 0 0 0 0
    ∷ word 44 0 0 0 3 0 1 0
    ∷ word 56 0 0 0 2 0 1 0
    ∷ word 1 0 0 0 0 0 0 0
    ∷ word 0 0 1 0 1 0 0 0
    ∷ word 0 0 0 0 0 0 0 0
    ∷ word 53 0 0 0 34 0 0 0
    ∷ word 0 0 0 0 0 0 0 0
    ∷ word 48 0 0 0 3 0 1 0
    ∷ word 60 0 0 0 2 0 1 0
    ∷ word 108 97 116 101 115 116 65 112
    ∷ word 112 108 105 101 100 86 101 114
    ∷ word 115 105 111 110 0 0 0 0
    ∷ word 4 0 0 0 0 0 0 0
    ∷ word 0 0 0 0 0 0 0 0
    ∷ word 0 0 0 0 0 0 0 0
    ∷ word 0 0 0 0 0 0 0 0
    ∷ word 4 0 0 0 0 0 0 0
    ∷ word 0 0 0 0 0 0 0 0
    ∷ word 0 0 0 0 0 0 0 0
    ∷ word 101 114 114 0 0 0 0 0
    ∷ word 12 0 0 0 0 0 0 0
    ∷ word 0 0 0 0 0 0 0 0
    ∷ word 0 0 0 0 0 0 0 0
    ∷ word 0 0 0 0 0 0 0 0
    ∷ word 12 0 0 0 0 0 0 0
    ∷ word 0 0 0 0 0 0 0 0
    ∷ word 0 0 0 0 0 0 0 0
    ∷ []

abbrev field_types : List FieldType
field_types = primitive i32 ∷ text_type ∷ []

abbrev raw_schema : RawSchema
raw_schema = record {
  encoded_node = encoded_node;
  field_types = field_types;
  nonunion_members = 0 ∷ 1 ∷ [];
  members_by_discriminant = [];
}

-- The encoded node, the table of field types, the size, the type id and the accessors of
-- `update_configuration_response` agree: the node gives a struct the fields
-- that the accessors of their names read.
abbrev pub Agrees : (l : Layout) → Layout.Struct l → Type 0
Agrees l s = IsDescribedBy l raw_schema type_id struct_size s (
    (codes "latestAppliedVersion", some (number i32 (get_latest_applied_version l s)))
    ∷ (codes "err", some (text (get_err l s)))
    ∷ [])

pub update_configuration_response-Agrees : (l : Layout) (s : Layout.Struct l) → Agrees l s
unfolding Wire.struct_at Wire.target Wire.list_at Wire.text_at Wire.data_at Bytes.as_bytes
update_configuration_response-Agrees l s = (refl, refl, refl, refl, refl, refl)
