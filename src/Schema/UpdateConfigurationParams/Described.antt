-- ===== src/Schema/UpdateConfigurationParams/Described.antt =====
-- The schema of `configuration_manager::update_configuration_params` that src/tunnelrpc_capnp.rs holds, and what it says of the
-- accessors.
use argo_rust.Base.{ℕ, some, List, [], ◌∷◌, codes, refl}
use argo_rust.CapnpRpc.Wire
use argo_rust.CapnpRpc.Bytes
use argo_rust.Schema.{Layout, i32}
use argo_rust.Schema.Node.{
  word, RawSchema, FieldType, primitive, data_type, IsDescribedBy, number, bytes,
}
use argo_rust.Schema.UpdateConfigurationParams.{type_id, struct_size, get_version, get_config}

abbrev encoded_node : List ℕ
encoded_node =
    word 0 0 0 0 5 0 6 0
    ∷ word 118 202 163 38 37 202 119 177
    ∷ word 37 0 0 0 1 0 1 0
    ∷ word 0 0 0 0 0 0 0 0
    ∷ word 1 0 7 0 0 0 0 0
    ∷ word 0 0 0 0 0 0 0 0
    ∷ word 21 0 0 0 2 2 0 0
    ∷ word 0 0 0 0 0 0 0 0
    ∷ word 0 0 0 0 0 0 0 0
    ∷ word 41 0 0 0 119 0 0 0
    ∷ word 0 0 0 0 0 0 0 0
    ∷ word 0 0 0 0 0 0 0 0
    ∷ word 116 117 110 110 101 108 114 112
    ∷ word 99 46 99 97 112 110 112 58
    ∷ word 67 111 110 102 105 103 117 114
    ∷ word 97 116 105 111 110 77 97 110
    ∷ word 97 103 101 114 46 117 112 100
    ∷ word 97 116 101 67 111 110 102 105
    ∷ word 103 117 114 97 116 105 111 110
    ∷ word 36 80 97 114 97 109 115 0
    ∷ word 8 0 0 0 3 0 4 0
    ∷ word 0 0 0 0 0 0 0 0
    ∷ word 0 0 1 0 0 0 0 0
    ∷ word 0 0 0 0 0 0 0 0
    ∷ word 41 0 0 0 66 0 0 0
    ∷ word 0 0 0 0 0 0 0 0
    ∷ word 36 0 0 0 3 0 1 0
    ∷ word 48 0 0 0 2 0 1 0
    ∷ word 1 0 0 0 0 0 0 0
    ∷ word 0 0 1 0 1 0 0 0
    ∷ word 0 0 0 0 0 0 0 0
    ∷ word 45 0 0 0 58 0 0 0
    ∷ word 0 0 0 0 0 0 0 0
    ∷ word 40 0 0 0 3 0 1 0
    ∷ word 52 0 0 0 2 0 1 0
    ∷ word 118 101 114 115 105 111 110 0
    ∷ word 4 0 0 0 0 0 0 0
    ∷ word 0 0 0 0 0 0 0 0
    ∷ word 0 0 0 0 0 0 0 0
    ∷ word 0 0 0 0 0 0 0 0
    ∷ word 4 0 0 0 0 0 0 0
    ∷ word 0 0 0 0 0 0 0 0
    ∷ word 0 0 0 0 0 0 0 0
    ∷ word 99 111 110 102 105 103 0 0
    ∷ word 13 0 0 0 0 0 0 0
    ∷ word 0 0 0 0 0 0 0 0
    ∷ word 0 0 0 0 0 0 0 0
    ∷ word 0 0 0 0 0 0 0 0
    ∷ word 13 0 0 0 0 0 0 0
    ∷ word 0 0 0 0 0 0 0 0
    ∷ word 0 0 0 0 0 0 0 0
    ∷ []

abbrev field_types : List FieldType
field_types = primitive i32 ∷ data_type ∷ []

abbrev raw_schema : RawSchema
raw_schema = record {
  encoded_node = encoded_node;
  field_types = field_types;
  nonunion_members = 0 ∷ 1 ∷ [];
  members_by_discriminant = [];
}

-- The encoded node, the table of field types, the size, the type id and the accessors of
-- `update_configuration_params` agree: the node gives a struct the fields
-- that the accessors of their names read.
abbrev pub Agrees : (l : Layout) → Layout.Struct l → Type 0
Agrees l s = IsDescribedBy l raw_schema type_id struct_size s (
    (codes "version", some (number i32 (get_version l s)))
    ∷ (codes "config", some (bytes (get_config l s)))
    ∷ [])

pub update_configuration_params-Agrees : (l : Layout) (s : Layout.Struct l) → Agrees l s
unfolding Wire.struct_at Wire.target Wire.list_at Wire.text_at Wire.data_at Bytes.as_bytes
update_configuration_params-Agrees l s = (refl, refl, refl, refl, refl, refl)
