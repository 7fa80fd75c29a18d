-- ===== src/Tunnel/Serve.antt =====
-- `connect_and_serve` and `handle_control_stream` of src/tunnel.rs, as far as they decide what
-- happens to a connection.
use argo_rust.Base.{ℕ, Bool, List, [], ◌∷◌, Str, str_eq, Result, ok, err, unwrap_or, if◌then◌else◌}
use argo_rust.CapnpRpc.Bytes.{Bytes}
use argo_rust.Config.{TokenCreds, Codecs, secret_bytes}
use argo_rust.Http.{HttpLib}
use argo_rust.Tunnel.Headers.{hdr_upgrade, control_stream_val, header_text}
use argo_rust.Tunnel.Proxy.{Incoming}

-- What `h2.accept()` answers: a request, a GOAWAY, another error, or the end.
pub data Accepted : Type 0 where
  request : Incoming → Accepted
  go_away : Accepted
  accept_error : Str → Accepted
  closed : Accepted

-- How far the loop is: it returned, it waits for the next `accept`, or for the control stream.
pub data Progress : Type 0 where
  returned : Result Str (Unit {0}) → Progress
  accepting : Progress
  held : Progress

-- How the control stream ends: with a result, or never, once the tunnel is registered or while its
-- call is not answered.
pub data Control : Type 0 where
  control_done : Result Str (Unit {0}) → Control
  keeps_alive : Control

-- What becomes of the call on the edge: an answer, or none as long as the loop waits for it.
pub data Called : Type 0 where
  answered : Result Str Str → Called
  unanswered : Called

-- The parameters of the call of `rpc_register`.
pub record Registration : Type 0 where
  pub account_tag : Str
  pub tunnel_secret : List ℕ
  pub tunnel_id : Bytes
  pub client_id : Bytes

-- The libraries under the control stream: the answer to `send_response`, `Uuid::parse_str`, and the
-- call on the edge.
pub record EdgeLib : Type 0 where
  pub send_response : Incoming → Result Str (Unit {0})
  pub parse_uuid : Str → Result Str Bytes
  pub rpc_register : Registration → Called

module _ (codecs : Codecs) (edge : EdgeLib) where
  abbrev pub after_register : Called → Control
  after_register (answered (ok location)) = keeps_alive
  after_register (answered (err e)) = control_done (ok tt)
  after_register unanswered = keeps_alive

  abbrev pub after_uuid : TokenCreds → Bytes → Result Str Bytes → Control
  after_uuid creds connector_id (err e) = control_done (err e)
  after_uuid creds connector_id (ok tunnel_id) = after_register (
      edge.rpc_register (record {
        account_tag = creds.a;
        tunnel_secret = unwrap_or (secret_bytes codecs creds) [];
        tunnel_id = tunnel_id;
        client_id = connector_id;
      }))

  unfoldable pub handle_control_stream : TokenCreds → Bytes → Incoming → Control
  handle_control_stream creds connector_id req = elim (edge.send_response req) [
    | err e ↦ control_done (err e)
    | ok sent ↦ after_uuid creds connector_id (edge.parse_uuid creds.t)
  ]

  module _ (lib : HttpLib) (creds : TokenCreds) (connector_id : Bytes) where
    abbrev pub is_control : Incoming → Bool
    is_control req = str_eq (header_text lib req.headers hdr_upgrade) control_stream_val

    abbrev pub keep_on : Control → List Incoming × Progress → List Incoming × Progress
    keep_on (control_done (ok u)) rest = rest
    keep_on (control_done (err e)) rest = ([], returned (err e))
    keep_on keeps_alive rest = ([], held)

    abbrev pub spawn : Incoming → List Incoming × Progress → List Incoming × Progress
    spawn req (spawned, end) = (req ∷ spawned, end)

    -- The accept loop, over what `accept` answers in order: the requests that are spawned, and how
    -- far the loop is then.
    unfoldable pub serve : List Accepted → List Incoming × Progress
    unfolding handle_control_stream
    serve [] = ([], accepting)
    serve (go_away ∷ rest) = ([], returned (ok tt))
    serve (accept_error e ∷ rest) = ([], returned (err e))
    serve (closed ∷ rest) = ([], returned (ok tt))
    serve (request req ∷ rest) =
        let later = serve rest in
        if is_control req
        then keep_on (handle_control_stream creds connector_id req) later
        else spawn req later

    -- `dialled` is the outcome of the TCP connection, of TLS and of the handshake.
    unfoldable pub connect_and_serve :
        Result Str (Unit {0}) → List Accepted → List Incoming × Progress
    unfolding serve
    connect_and_serve (err e) answers = ([], returned (err e))
    connect_and_serve (ok u) answers = serve answers
