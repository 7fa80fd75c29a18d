-- ===== src/Rpc/Request.antt =====
-- The parameters that `rpc_register` of src/tunnel.rs sends, filled by the generated builders.
use argo_rust.Base.{◌%◌, ◌^◌, List, [], ◌∷◌, ◌++◌, length, codes}
use argo_rust.CapnpRpc.Bytes.{Bytes}
use argo_rust.CapnpRpc.Encode.{RegisterArgs}
use argo_rust.Schema.{Layout}
use argo_rust.Schema.RegisterConnectionParams.Builder as Params
use argo_rust.Schema.TunnelAuth.Builder as Auth
use argo_rust.Schema.ConnectionOptions.Builder as Options
use argo_rust.Schema.ClientInfo.Builder as Client
use argo_rust.Rpc.{set_texts}

-- The arguments of `rpc_register` that the request holds, with the operating system and the
-- architecture that the program was built for.
pub record RegisterInputs : Type 0 where
  pub account_tag : Bytes
  pub tunnel_secret : Bytes
  pub tunnel_id : Bytes
  pub client_id : Bytes
  pub os : Bytes
  pub arch : Bytes

abbrev pub sent_features : List Bytes
sent_features = codes "ha-origin" ∷ codes "serialized-headers" ∷ []

abbrev pub sent_version : Bytes
sent_version = codes "2024.11.1"

abbrev pub os_arch : RegisterInputs → Bytes
os_arch r = r.os ++ codes "-" ++ r.arch

-- The inputs as the arguments of a registration.
abbrev pub arguments_of : RegisterInputs → RegisterArgs
arguments_of r = record {
  account_tag = r.account_tag;
  tunnel_secret = r.tunnel_secret;
  tunnel_id = r.tunnel_id;
  conn_index = 0;
  client_id = r.client_id;
  version = sent_version;
  arch = os_arch r;
  features = sent_features;
}

module _ (l : Layout) where
  open l use {Struct}

  abbrev pub request_auth : RegisterInputs → Struct → Struct
  request_auth r auth =
      let auth = Auth.set_account_tag l r.account_tag auth in
      Auth.set_tunnel_secret l r.tunnel_secret auth

  abbrev pub request_client : RegisterInputs → Struct → Struct
  request_client r client =
      let client = Client.set_client_id l r.client_id client in
      let client =
        Client.init_features l (length sent_features % 2 ^ 32) (set_texts l sent_features 0)
          client in
      let client = Client.set_version l sent_version client in Client.set_arch l (os_arch r) client

  abbrev pub request_options : RegisterInputs → Struct → Struct
  request_options r opts =
      let opts = Options.set_num_previous_attempts l 0 opts in
      Options.init_client l (request_client r) opts

  -- The parameters of the request after `request.get()` and the writes.
  unfoldable pub fill_request : RegisterInputs → Struct → Struct
  fill_request r p =
      let p = Params.init_auth l (request_auth r) p in
      let p = Params.set_tunnel_id l r.tunnel_id p in
      let p = Params.set_conn_index l 0 p in Params.init_options l (request_options r) p
