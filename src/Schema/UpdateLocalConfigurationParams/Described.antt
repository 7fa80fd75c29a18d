-- ===== src/Schema/UpdateLocalConfigurationParams/Described.antt =====
-- The schema of `registration_server::update_local_configuration_params` that src/tunnelrpc_capnp.rs holds, and what it says of the
-- accessors.
use argo_rust.Base.{ℕ, some, List, [], ◌∷◌, codes, refl}
use argo_rust.CapnpRpc.Wire
use argo_rust.CapnpRpc.Bytes
use argo_rust.Schema.{Layout}
use argo_rust.Schema.Node.{word, RawSchema, FieldType, data_type, IsDescribedBy, bytes}
use argo_rust.Schema.UpdateLocalConfigurationParams.{type_id, struct_size, get_config}

abbrev encoded_node : List ℕ
encoded_node =
    word 0 0 0 0 5 0 6 0
    ∷ word 4 54 106 135 17 227 214 197
    ∷ word 35 0 0 0 1 0 0 0
    ∷ word 0 0 0 0 0 0 0 0
    ∷ word 1 0 7 0 0 0 0 0
    ∷ word 0 0 0 0 0 0 0 0
    ∷ word 21 0 0 0 26 2 0 0
    ∷ word 0 0 0 0 0 0 0 0
    ∷ word 0 0 0 0 0 0 0 0
    ∷ word 45 0 0 0 63 0 0 0
    ∷ word 0 0 0 0 0 0 0 0
    ∷ word 0 0 0 0 0 0 0 0
    ∷ word 116 117 110 110 101 108 114 112
    ∷ word 99 46 99 97 112 110 112 58
    ∷ word 82 101 103 105 115 116 114 97
    ∷ word 116 105 111 110 83 101 114 118
    ∷ word 101 114 46 117 112 100 97 116
    ∷ word 101 76 111 99 97 108 67 111
    ∷ word 110 102 105 103 117 114 97 116
    ∷ word 105 111 110 36 80 97 114 97
    ∷ word 109 115 0 0 0 0 0 0
    ∷ word 4 0 0 0 3 0 4 0
    ∷ word 0 0 0 0 0 0 0 0
    ∷ word 0 0 1 0 0 0 0 0
    ∷ word 0 0 0 0 0 0 0 0
    ∷ word 13 0 0 0 58 0 0 0
    ∷ word 0 0 0 0 0 0 0 0
    ∷ word 8 0 0 0 3 0 1 0
    ∷ word 20 0 0 0 2 0 1 0
    ∷ word 99 111 110 102 105 103 0 0
    ∷ word 13 0 0 0 0 0 0 0
    ∷ word 0 0 0 0 0 0 0 0
    ∷ word 0 0 0 0 0 0 0 0
    ∷ word 0 0 0 0 0 0 0 0
    ∷ word 13 0 0 0 0 0 0 0
    ∷ word 0 0 0 0 0 0 0 0
    ∷ word 0 0 0 0 0 0 0 0
    ∷ []

abbrev field_types : List FieldType
field_types = data_type ∷ []

abbrev raw_schema : RawSchema
raw_schema = record {
  encoded_node = encoded_node;
  field_types = field_types;
  nonunion_members = 0 ∷ [];
  members_by_discriminant = [];
}

-- The encoded node, the table of field types, the size, the type id and the accessors of
-- `update_local_configuration_params` agree: the node gives a struct the fields
-- that the accessors of their names read.
abbrev pub Agrees : (l : Layout) → Layout.Struct l → Type 0
Agrees l s =
    IsDescribedBy l raw_schema type_id struct_size s
      ((codes "config", some (bytes (get_config l s))) ∷ [])

pub update_local_configuration_params-Agrees : (l : Layout) (s : Layout.Struct l) → Agrees l s
unfolding Wire.struct_at Wire.target Wire.list_at Wire.text_at Wire.data_at Bytes.as_bytes
update_local_configuration_params-Agrees l s = (refl, refl, refl, refl, refl, refl)
