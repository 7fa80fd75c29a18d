-- ===== src/Schema/TunnelAuth/Described.antt =====
-- The schema of `tunnel_auth` that src/tunnelrpc_capnp.rs holds, and what it says of the
-- accessors.
use argo_rust.Base.{ℕ, some, List, [], ◌∷◌, codes, refl}
use argo_rust.CapnpRpc.Wire
use argo_rust.CapnpRpc.Bytes
use argo_rust.Schema.{Layout}
use argo_rust.Schema.Node.{
  word, RawSchema, FieldType, text_type, data_type, IsDescribedBy, text, bytes,
}
use argo_rust.Schema.TunnelAuth.{type_id, struct_size, get_account_tag, get_tunnel_secret}

abbrev encoded_node : List ℕ
encoded_node =
    word 0 0 0 0 5 0 6 0
    ∷ word 63 70 205 185 26 51 150 148
    ∷ word 16 0 0 0 1 0 0 0
    ∷ word 126 188 74 20 249 116 130 219
    ∷ word 2 0 7 0 0 0 0 0
    ∷ word 0 0 0 0 0 0 0 0
    ∷ word 21 0 0 0 218 0 0 0
    ∷ word 33 0 0 0 7 0 0 0
    ∷ word 0 0 0 0 0 0 0 0
    ∷ word 29 0 0 0 119 0 0 0
    ∷ word 0 0 0 0 0 0 0 0
    ∷ word 0 0 0 0 0 0 0 0
    ∷ word 116 117 110 110 101 108 114 112
    ∷ word 99 46 99 97 112 110 112 58
    ∷ word 84 117 110 110 101 108 65 117
    ∷ word 116 104 0 0 0 0 0 0
    ∷ word 0 0 0 0 1 0 1 0
    ∷ word 8 0 0 0 3 0 4 0
    ∷ word 0 0 0 0 0 0 0 0
    ∷ word 0 0 1 0 0 0 0 0
    ∷ word 0 0 0 0 0 0 0 0
    ∷ word 41 0 0 0 90 0 0 0
    ∷ word 0 0 0 0 0 0 0 0
    ∷ word 40 0 0 0 3 0 1 0
    ∷ word 52 0 0 0 2 0 1 0
    ∷ word 1 0 0 0 1 0 0 0
    ∷ word 0 0 1 0 1 0 0 0
    ∷ word 0 0 0 0 0 0 0 0
    ∷ word 49 0 0 0 106 0 0 0
    ∷ word 0 0 0 0 0 0 0 0
    ∷ word 48 0 0 0 3 0 1 0
    ∷ word 60 0 0 0 2 0 1 0
    ∷ word 97 99 99 111 117 110 116 84
    ∷ word 97 103 0 0 0 0 0 0
    ∷ word 12 0 0 0 0 0 0 0
    ∷ word 0 0 0 0 0 0 0 0
    ∷ word 0 0 0 0 0 0 0 0
    ∷ word 0 0 0 0 0 0 0 0
    ∷ word 12 0 0 0 0 0 0 0
    ∷ word 0 0 0 0 0 0 0 0
    ∷ word 0 0 0 0 0 0 0 0
    ∷ word 116 117 110 110 101 108 83 101
    ∷ word 99 114 101 116 0 0 0 0
    ∷ word 13 0 0 0 0 0 0 0
    ∷ word 0 0 0 0 0 0 0 0
    ∷ word 0 0 0 0 0 0 0 0
    ∷ word 0 0 0 0 0 0 0 0
    ∷ word 13 0 0 0 0 0 0 0
    ∷ word 0 0 0 0 0 0 0 0
    ∷ word 0 0 0 0 0 0 0 0
    ∷ []

abbrev field_types : List FieldType
field_types = text_type ∷ data_type ∷ []

abbrev raw_schema : RawSchema
raw_schema = record {
  encoded_node = encoded_node;
  field_types = field_types;
  nonunion_members = 0 ∷ 1 ∷ [];
  members_by_discriminant = [];
}

-- The encoded node, the table of field types, the size, the type id and the accessors of
-- `tunnel_auth` agree: the node gives a struct the fields
-- that the accessors of their names read.
abbrev pub Agrees : (l : Layout) → Layout.Struct l → Type 0
Agrees l s = IsDescribedBy l raw_schema type_id struct_size s (
    (codes "accountTag", some (text (get_account_tag l s)))
    ∷ (codes "tunnelSecret", some (bytes (get_tunnel_secret l s)))
    ∷ [])

pub tunnel_auth-Agrees : (l : Layout) (s : Layout.Struct l) → Agrees l s
unfolding Wire.struct_at Wire.target Wire.list_at Wire.text_at Wire.data_at Bytes.as_bytes
tunnel_auth-Agrees l s = (refl, refl, refl, refl, refl, refl)
