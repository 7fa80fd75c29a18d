-- ===== src/Tests/StartUp.antt =====
-- The start of the tunnel at concrete inputs.
use mathlib.Core.List.Permᴰ
use argo_rust.Base.{◌≡◌, ◌↔◌, List, [], ◌∷◌, none, some, Str, codes, Result, ok, err, true, false}
use argo_rust.Config.{IngressRule, TokenCreds, Codecs}
use argo_rust.Edge.{SocketAddr}
use argo_rust.Edge.Resolved.{known_addrs}
use argo_rust.Ingress.Rules.{Readers, Files, system_config}
use argo_rust.Tunnel.StartUp.{TunnelConfig, Started, start_up}
use argo_rust.Tunnel.Startable.{Starts, start_up_iff}

abbrev creds : TokenCreds
creds = record { a = codes "account"; s = codes "secret"; t = codes "tunnel" }

abbrev codecs : Codecs
codecs = record {
  standard = λ s. none;
  url_safe = λ s. none;
  url_safe_no_pad = λ s. some (123 ∷ []);
  from_slice = λ bytes. some creds;
}

abbrev last_rule : IngressRule
last_rule = record { hostname = []; path = []; service = codes "http_status:404" }

abbrev readers : Readers
readers = record { from_json = λ s. none; from_yaml = λ s. some (last_rule ∷ []) }

abbrev files : Files
files = record {
  read_to_string = λ path. some (codes "ingress:");
  exists = λ path. true;
  home_dir = none;
}

abbrev down : Str → Result Str (List SocketAddr)
down host = err (codes "timeout")

abbrev in_order : List SocketAddr → List SocketAddr
in_order addrs = addrs

abbrev config : TunnelConfig
config = record { token = codes "token"; quick_tunnel = false; config_file = none }

abbrev started : Started
started = record {
  creds = creds;
  config_path = system_config;
  table = last_rule ∷ [];
  addrs = known_addrs;
}

start_up_iff_example :
    (start_up codecs readers files down in_order config ≡ ok started)
    ↔ Starts codecs readers files down in_order config started
start_up_iff_example =
    start_up_iff codecs readers files down in_order (λ xs. Permᴰ.refl xs) config started
