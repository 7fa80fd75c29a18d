-- ===== src/Tunnel/ControlStream.antt =====
-- The control stream of src/tunnel.rs with `rpc_register` in place.
use argo_rust.Base.{Bool, Str, Result, if◌then◌else◌}
use argo_rust.CapnpRpc.Bytes.{Bytes}
use argo_rust.Schema.{Layout}
use argo_rust.Rpc.Request.{RegisterInputs}
use argo_rust.Rpc.Register.{RpcLib, rpc_register}
use argo_rust.Tunnel.Proxy.{Incoming}
use argo_rust.Tunnel.Serve.{Registration, EdgeLib, answered, unanswered}

-- The platform that the program was built for.
pub record Platform : Type 0 where
  pub os : Bytes
  pub arch : Bytes

abbrev pub inputs_of : Platform → Registration → RegisterInputs
inputs_of platform r = record {
  account_tag = r.account_tag;
  tunnel_secret = r.tunnel_secret;
  tunnel_id = r.tunnel_id;
  client_id = r.client_id;
  os = platform.os;
  arch = platform.arch;
}

module _ (l : Layout) (lib : RpcLib l) (platform : Platform) where
  -- The control stream's call on the edge is `rpc_register`. `arrives` says whether the stream gets
  -- its bytes to the edge and back while the loop waits for the call.
  abbrev pub edge_over :
      (Incoming → Result Str (Unit {0})) → (Str → Result Str Bytes) → Bool → EdgeLib
  edge_over send_response parse_uuid arrives = record {
    send_response = send_response;
    parse_uuid = parse_uuid;
    rpc_register =
        λ r. if arrives then answered (rpc_register l lib (inputs_of platform r)) else unanswered;
  }
