-- ===== src/Payload.antt =====
-- src/rpc.rs: the JSON registration. serde_json, hex and the text of a UUID are arguments; a derived
-- `Serialize` is the object of the fields in order.
use argo_rust.Base.{
  ℕ, ◌++◌, List, [], ◌∷◌, Option, none, some, Str, str_eq, Result, ok, unwrap_or, and_then, codes,
  ◌≡◌, refl, if◌then◌else◌,
}
use argo_rust.CapnpRpc.Bytes.{Bytes}

pub record ClientInfo : Type 0 where
  pub client_id : Str
  pub features : List Str
  pub version : Str
  pub arch : Str

pub record ConnectionOptions : Type 0 where
  pub client : ClientInfo
  pub num_previous_attempts : ℕ
  pub unregister_pause : ℕ
  pub features : List Str

-- `ClientInfo::new`, for the text of the connector's UUID and the platform.
unfoldable pub new : Str → Str → Str → ClientInfo
new connector_id os arch = record {
  client_id = connector_id;
  features = codes "ha-origin" ∷ codes "serialized-headers" ∷ [];
  version = codes "2024.11.1";
  arch = os ++ codes "-" ++ arch;
}

-- The JSON values of the payload.
pub data Json : Type 0 where
  text : Str → Json
  number : ℕ → Json
  texts : List Str → Json

abbrev pub JsonObject : Type 0
JsonObject = List (Str × Json)

pub record JsonLib : Type 0 where
  pub to_vec : JsonObject → Result Str Bytes
  pub hex_encode : Bytes → Str

pub record RegisterPayload : Type 0 where
  pub account_tag : Str
  pub tunnel_secret : Bytes
  pub tunnel_id : Bytes
  pub conn_index : ℕ
  pub client_id : Str
  pub features : List Str
  pub version : Str
  pub arch : Str
  pub edge_address : Str

module _ (lib : JsonLib) where
  abbrev pub hex_bytes : Bytes → Json
  hex_bytes bytes = text (lib.hex_encode bytes)

  -- The derived `Serialize`, with `hex_bytes` for the secret and the id.
  abbrev pub serialize : RegisterPayload → JsonObject
  serialize p =
      (codes "account_tag", text p.account_tag)
      ∷ (codes "tunnel_secret", hex_bytes p.tunnel_secret)
      ∷ (codes "tunnel_id", hex_bytes p.tunnel_id)
      ∷ (codes "conn_index", number p.conn_index)
      ∷ (codes "client_id", text p.client_id)
      ∷ (codes "features", texts p.features)
      ∷ (codes "version", text p.version)
      ∷ (codes "arch", text p.arch)
      ∷ (codes "edge_address", text p.edge_address)
      ∷ []

  unfoldable pub build_capnp_register : Str → Bytes → Bytes → ℕ → ConnectionOptions → Str → Bytes
  build_capnp_register account_tag tunnel_secret tunnel_id conn_index opts edge_addr =
      let payload : RegisterPayload = record {
        account_tag = account_tag;
        tunnel_secret = tunnel_secret;
        tunnel_id = tunnel_id;
        conn_index = conn_index;
        client_id = opts.client.client_id;
        features = opts.client.features;
        version = opts.client.version;
        arch = opts.client.arch;
        edge_address = edge_addr;
      } in
      unwrap_or (lib.to_vec (serialize payload)) []

-- A reader of the payload, over a JSON reader and a hex reader.
pub record ReadLib : Type 0 where
  pub from_slice : Bytes → Option JsonObject
  pub hex_decode : Str → Option Bytes

abbrev field : Str → JsonObject → Option Json
field name [] = none
field name ((key, value) ∷ rest) = if str_eq name key then some value else field name rest

abbrev text_of : Json → Option Str
text_of (text t) = some t
text_of (number n) = none
text_of (texts ts) = none

abbrev number_of : Json → Option ℕ
number_of (text t) = none
number_of (number n) = some n
number_of (texts ts) = none

abbrev texts_of : Json → Option (List Str)
texts_of (text t) = none
texts_of (number n) = none
texts_of (texts ts) = some ts

module _ (reader : ReadLib) where
  abbrev get_text : Str → JsonObject → Option Str
  get_text name o = and_then (field name o) text_of

  abbrev get_bytes : Str → JsonObject → Option Bytes
  get_bytes name o = and_then (get_text name o) reader.hex_decode

  abbrev pub read_payload : JsonObject → Option RegisterPayload
  read_payload o = and_then (get_text (codes "account_tag") o) (λ account_tag.
      and_then (get_bytes (codes "tunnel_secret") o) (λ tunnel_secret.
        and_then (get_bytes (codes "tunnel_id") o) (λ tunnel_id.
          and_then (and_then (field (codes "conn_index") o) number_of) (λ conn_index.
            and_then (get_text (codes "client_id") o) (λ client_id.
              and_then (and_then (field (codes "features") o) texts_of) (λ features.
                and_then (get_text (codes "version") o) (λ version.
                  and_then (get_text (codes "arch") o) (λ arch.
                    and_then (get_text (codes "edge_address") o) (λ edge_address. some (record {
                      account_tag = account_tag;
                      tunnel_secret = tunnel_secret;
                      tunnel_id = tunnel_id;
                      conn_index = conn_index;
                      client_id = client_id;
                      features = features;
                      version = version;
                      arch = arch;
                      edge_address = edge_address;
                    }))))))))))

  -- Where the JSON and the hex readers invert the writers on what is written, the payload of
  -- `build_capnp_register` holds all arguments but the attempts, the pause and the features beside
  -- the client.
  pub build_capnp_register-read_payload :
      (lib : JsonLib) (account_tag : Str) (secret id : Bytes) (conn_index : ℕ)
      (opts : ConnectionOptions) (edge_addr : Str)
      → ((o : JsonObject)
          → (bytes : Bytes) × (lib.to_vec o ≡ ok bytes) × (reader.from_slice bytes ≡ some o))
      → ((bytes : Bytes) → reader.hex_decode (lib.hex_encode bytes) ≡ some bytes)
      → and_then
          (reader.from_slice
            (build_capnp_register lib account_tag secret id conn_index opts edge_addr))
          read_payload
        ≡ some (record {
          account_tag = account_tag;
          tunnel_secret = secret;
          tunnel_id = id;
          conn_index = conn_index;
          client_id = opts.client.client_id;
          features = opts.client.features;
          version = opts.client.version;
          arch = opts.client.arch;
          edge_address = edge_addr;
        })
  unfolding build_capnp_register str_eq
  build_capnp_register-read_payload lib account_tag secret id conn_index opts edge_addr json hex =
      let payload : RegisterPayload = record {
        account_tag = account_tag;
        tunnel_secret = secret;
        tunnel_id = id;
        conn_index = conn_index;
        client_id = opts.client.client_id;
        features = opts.client.features;
        version = opts.client.version;
        arch = opts.client.arch;
        edge_address = edge_addr;
      } in
      let (bytes, written, read) = json (serialize lib payload) in
      rw (written, read, hex secret, hex id) refl
