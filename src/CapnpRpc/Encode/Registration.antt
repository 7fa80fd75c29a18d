-- ===== src/CapnpRpc/Encode/Registration.antt =====
-- Reading a registration back: what `encode_register_connection` builds, wherever it stands in a
-- segment.
mod Parts
mod Features
mod Blobs
pub mod RoundTrip
use argo_rust.Base.{ℕ, ◌+◌, List, [], ◌∷◌, Option, none, some, and_then}
use argo_rust.CapnpRpc.Bytes.{Bytes}
use argo_rust.CapnpRpc.Wire.{◌>>=◌, u8_at, struct_at, data_at, text_at, texts_at}
use argo_rust.CapnpRpc.Encode.{RegisterArgs}

-- The struct RegisterConnectionParams whose data begins at word `k`, by the schema
-- tunnelrpc.capnp: the sizes of the structs and the slots of their fields.
unfoldable pub read_registration : List ℕ → ℕ → Option RegisterArgs
read_registration ws k = do
  conn_index ← u8_at ws k 0
  auth ← struct_at ws (k + 1) 0 2
  tunnel_id ← data_at ws (k + 2)
  options ← struct_at ws (k + 3) 1 2
  account_tag ← text_at ws (auth + 0)
  tunnel_secret ← data_at ws (auth + 1)
  client ← struct_at ws (options + 1) 0 4
  client_id ← data_at ws (client + 0)
  features ← texts_at ws (client + 1)
  version ← text_at ws (client + 2)
  arch ← text_at ws (client + 3)
  some (record {
    account_tag = account_tag;
    tunnel_secret = tunnel_secret;
    tunnel_id = tunnel_id;
    conn_index = conn_index;
    client_id = client_id;
    version = version;
    arch = arch;
    features = features;
  })
