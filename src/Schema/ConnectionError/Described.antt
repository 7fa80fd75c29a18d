-- ===== src/Schema/ConnectionError/Described.antt =====
-- The schema of `connection_error` that src/tunnelrpc_capnp.rs holds, and what it says of the
-- accessors.
use argo_rust.Base.{ℕ, some, List, [], ◌∷◌, codes, refl}
use argo_rust.CapnpRpc.Wire
use argo_rust.CapnpRpc.Bytes
use argo_rust.Schema.{Layout, i64}
use argo_rust.Schema.Node.{
  word, RawSchema, FieldType, bool_type, primitive, text_type, IsDescribedBy, flag, number, text,
}
use argo_rust.Schema.ConnectionError.{
  type_id, struct_size, get_cause, get_retry_after, get_should_retry,
}

abbrev encoded_node : List ℕ
encoded_node =
    word 0 0 0 0 5 0 6 0
    ∷ word 134 219 94 120 210 131 243 245
    ∷ word 16 0 0 0 1 0 2 0
    ∷ word 126 188 74 20 249 116 130 219
    ∷ word 1 0 7 0 0 0 0 0
    ∷ word 0 0 0 0 0 0 0 0
    ∷ word 21 0 0 0 2 1 0 0
    ∷ word 33 0 0 0 7 0 0 0
    ∷ word 0 0 0 0 0 0 0 0
    ∷ word 29 0 0 0 175 0 0 0
    ∷ word 0 0 0 0 0 0 0 0
    ∷ word 0 0 0 0 0 0 0 0
    ∷ word 116 117 110 110 101 108 114 112
    ∷ word 99 46 99 97 112 110 112 58
    ∷ word 67 111 110 110 101 99 116 105
    ∷ word 111 110 69 114 114 111 114 0
    ∷ word 0 0 0 0 1 0 1 0
    ∷ word 12 0 0 0 3 0 4 0
    ∷ word 0 0 0 0 0 0 0 0
    ∷ word 0 0 1 0 0 0 0 0
    ∷ word 0 0 0 0 0 0 0 0
    ∷ word 69 0 0 0 50 0 0 0
    ∷ word 0 0 0 0 0 0 0 0
    ∷ word 64 0 0 0 3 0 1 0
    ∷ word 76 0 0 0 2 0 1 0
    ∷ word 1 0 0 0 0 0 0 0
    ∷ word 0 0 1 0 1 0 0 0
    ∷ word 0 0 0 0 0 0 0 0
    ∷ word 73 0 0 0 90 0 0 0
    ∷ word 0 0 0 0 0 0 0 0
    ∷ word 72 0 0 0 3 0 1 0
    ∷ word 84 0 0 0 2 0 1 0
    ∷ word 2 0 0 0 64 0 0 0
    ∷ word 0 0 1 0 2 0 0 0
    ∷ word 0 0 0 0 0 0 0 0
    ∷ word 81 0 0 0 98 0 0 0
    ∷ word 0 0 0 0 0 0 0 0
    ∷ word 80 0 0 0 3 0 1 0
    ∷ word 92 0 0 0 2 0 1 0
    ∷ word 99 97 117 115 101 0 0 0
    ∷ word 12 0 0 0 0 0 0 0
    ∷ word 0 0 0 0 0 0 0 0
    ∷ word 0 0 0 0 0 0 0 0
    ∷ word 0 0 0 0 0 0 0 0
    ∷ word 12 0 0 0 0 0 0 0
    ∷ word 0 0 0 0 0 0 0 0
    ∷ word 0 0 0 0 0 0 0 0
    ∷ word 114 101 116 114 121 65 102 116
    ∷ word 101 114 0 0 0 0 0 0
    ∷ word 5 0 0 0 0 0 0 0
    ∷ word 0 0 0 0 0 0 0 0
    ∷ word 0 0 0 0 0 0 0 0
    ∷ word 0 0 0 0 0 0 0 0
    ∷ word 5 0 0 0 0 0 0 0
    ∷ word 0 0 0 0 0 0 0 0
    ∷ word 0 0 0 0 0 0 0 0
    ∷ word 115 104 111 117 108 100 82 101
    ∷ word 116 114 121 0 0 0 0 0
    ∷ word 1 0 0 0 0 0 0 0
    ∷ word 0 0 0 0 0 0 0 0
    ∷ word 0 0 0 0 0 0 0 0
    ∷ word 0 0 0 0 0 0 0 0
    ∷ word 1 0 0 0 0 0 0 0
    ∷ word 0 0 0 0 0 0 0 0
    ∷ word 0 0 0 0 0 0 0 0
    ∷ []

abbrev field_types : List FieldType
field_types = text_type ∷ primitive i64 ∷ bool_type ∷ []

abbrev raw_schema : RawSchema
raw_schema = record {
  encoded_node = encoded_node;
  field_types = field_types;
  nonunion_members = 0 ∷ 1 ∷ 2 ∷ [];
  members_by_discriminant = [];
}

-- The encoded node, the table of field types, the size, the type id and the accessors of
-- `connection_error` agree: the node gives a struct the fields
-- that the accessors of their names read.
abbrev pub Agrees : (l : Layout) → Layout.Struct l → Type 0
Agrees l s = IsDescribedBy l raw_schema type_id struct_size s (
    (codes "cause", some (text (get_cause l s)))
    ∷ (codes "retryAfter", some (number i64 (get_retry_after l s)))
    ∷ (codes "shouldRetry", some (flag (get_should_retry l s)))
    ∷ [])

pub connection_error-Agrees : (l : Layout) (s : Layout.Struct l) → Agrees l s
unfolding Wire.struct_at Wire.target Wire.list_at Wire.text_at Wire.data_at Bytes.as_bytes
connection_error-Agrees l s = (refl, refl, refl, refl, refl, refl)
