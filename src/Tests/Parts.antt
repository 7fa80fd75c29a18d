-- ===== src/Tests/Parts.antt =====
-- The certificates, the local proxy and the JSON payload at concrete inputs.
use argo_rust.Base.{
  ◌%◌, ◌==◌, if◌then◌else◌, List, [], ◌∷◌, ◌≡◌, refl, some, none, codes, ok, err, arith, and_then,
}
use argo_rust.Certificates.{
  Item, x509_certificate, other_item, ReadOne, Consumes, Items, certificates, cloudflare_ca_certs,
  cloudflare_ca_certs-Items,
}
use argo_rust.Http.{Url}
use argo_rust.LocalProxy.{ProxyLib, Client}
use argo_rust.Tests.Json.{write_object, read_object, read_object-write_object}
use argo_rust.Payload.{
  JsonLib, ReadLib, ConnectionOptions, RegisterPayload, new, read_payload, build_capnp_register,
  build_capnp_register-read_payload,
}

-- Every byte is an item, an even one a certificate.
abbrev read_byte : ReadOne
read_byte [] = (ok none, [])
read_byte (b ∷ rest) =
    (ok (some (if b % 2 == 0 then x509_certificate (b ∷ []) else other_item (b ∷ []))), rest)

read_byte-Consumes : Consumes read_byte
read_byte-Consumes [] item e = absurd (cc e)
read_byte-Consumes (b ∷ rest) item e = omega arith

cloudflare_ca_certs-Items_example :
    (items : List Item) × Items read_byte (1 ∷ 2 ∷ []) items
    × (cloudflare_ca_certs read_byte (1 ∷ 2 ∷ []) ≡ some (certificates items))
cloudflare_ca_certs-Items_example =
    cloudflare_ca_certs-Items read_byte (1 ∷ 2 ∷ []) read_byte-Consumes

abbrev local : Url
local = record { scheme = codes "http"; host_str = some (codes "h"); port_or_known_default = none }

-- An upstream that refuses the connection for the client 0 alone.
abbrev lib : ProxyLib
lib = record {
  parse_url = λ s. ok local;
  connect = λ client address. if client.number == 0 then err (codes "refused") else ok tt;
  bind = λ address. ok tt;
}

abbrev clients : List Client
clients = record { number = 0; peer = codes "p" } ∷ record { number = 1; peer = codes "q" } ∷ []

abbrev json : JsonLib
json = record { to_vec = λ o. ok (write_object o); hex_encode = λ b. b }

abbrev reader : ReadLib
reader = record { from_slice = read_object; hex_decode = λ s. some s }

abbrev options : ConnectionOptions
options = record {
  client = new (codes "id") (codes "linux") (codes "x86_64");
  num_previous_attempts = 0;
  unregister_pause = 0;
  features = [];
}

abbrev payload : RegisterPayload
payload = record {
  account_tag = codes "acc";
  tunnel_secret = 1 ∷ 2 ∷ [];
  tunnel_id = 3 ∷ [];
  conn_index = 1;
  client_id = options.client.client_id;
  features = options.client.features;
  version = options.client.version;
  arch = options.client.arch;
  edge_address = codes "edge";
}

build_capnp_register-read_payload_example :
    and_then
      (reader.from_slice
        (build_capnp_register json (codes "acc") (1 ∷ 2 ∷ []) (3 ∷ []) 1 options (codes "edge")))
      (read_payload reader)
    ≡ some payload
build_capnp_register-read_payload_example =
    build_capnp_register-read_payload reader json (codes "acc") (1 ∷ 2 ∷ []) (3 ∷ []) 1 options
      (codes "edge") (λ o. (write_object o, refl, read_object-write_object o)) (λ b. refl)
