-- ===== src/Rpc.antt =====
-- Registration over the generated accessors: `rpc_register` of src/tunnel.rs and
-- `fill_register_connection` of src/capnp_params.rs. Texts stand for their UTF-8 bytes.
pub mod Params
pub mod Request
pub mod Texts
pub mod Reading
pub mod Register
pub mod Registered
pub mod Answered
pub mod Pointers
pub mod Segment
pub mod Encoded
use argo_rust.Base.{ℕ, ◌+◌, Bool, List, [], ◌∷◌, Str, Result, ok, err, ◌>>=◌, set}
use argo_rust.CapnpRpc.Bytes.{Bytes}
use argo_rust.CapnpRpc.Encode.{RegisterArgs}
use argo_rust.Schema.{Layout}
use argo_rust.Schema.RegisterConnectionParams
use argo_rust.Schema.TunnelAuth
use argo_rust.Schema.ConnectionOptions
use argo_rust.Schema.ClientInfo

module _ (l : Layout) where
  open l use {Struct, Pointer, to_text, get_text}

  -- The loop that sets element `i` and later ones of a list of texts, which has that many elements.
  unfoldable pub set_texts : List Bytes → ℕ → List Pointer → List Pointer
  set_texts [] i ps = ps
  set_texts (f ∷ fs) i ps = set_texts fs (i + 1) (set ps i (to_text f))

  abbrev pub texts_of : List Pointer → Result Str (List Bytes)
  texts_of [] = ok []
  texts_of (p ∷ ps) = do t ← get_text p; ts ← texts_of ps; ok (t ∷ ts)

  -- What a server reads from the parameters by the generated readers.
  pub record Received : Type 0 where
    pub arguments : RegisterArgs
    pub num_previous_attempts : ℕ
    pub compression_quality : ℕ
    pub replaces_existing : Bool

  abbrev pub receive : Struct → Result Str Received
  receive s = do
    auth ← RegisterConnectionParams.get_auth l s
    account_tag ← TunnelAuth.get_account_tag l auth
    tunnel_secret ← TunnelAuth.get_tunnel_secret l auth
    tunnel_id ← RegisterConnectionParams.get_tunnel_id l s
    options ← RegisterConnectionParams.get_options l s
    client ← ConnectionOptions.get_client l options
    client_id ← ClientInfo.get_client_id l client
    features_list ← ClientInfo.get_features l client
    features ← texts_of features_list
    version ← ClientInfo.get_version l client
    arch ← ClientInfo.get_arch l client
    ok record {
      arguments = record {
        account_tag = account_tag;
        tunnel_secret = tunnel_secret;
        tunnel_id = tunnel_id;
        conn_index = RegisterConnectionParams.get_conn_index l s;
        client_id = client_id;
        version = version;
        arch = arch;
        features = features;
      };
      num_previous_attempts = ConnectionOptions.get_num_previous_attempts l options;
      compression_quality = ConnectionOptions.get_compression_quality l options;
      replaces_existing = ConnectionOptions.get_replace_existing l options;
    }
