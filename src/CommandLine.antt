-- ===== src/CommandLine.antt =====
-- `main` of src/main.rs after clap has read the command line: the start of the tunnel, the local
-- proxy, or the printed information. A tunnel that starts runs on.
use argo_rust.Base.{ℕ, false, List, [], ◌∷◌, Option, Str, Result, ok, err, codes}
use argo_rust.Edge.{SocketAddr}
use argo_rust.Config.{Codecs}
use argo_rust.Ingress.FilePath.{FilePath}
use argo_rust.Ingress.Rules.{Readers, Files}
use argo_rust.Tunnel.StartUp.{StartError, Started, start_up}
use argo_rust.LocalProxy.{ProxyLib, Event, Answer, Progress, run_proxy}

pub data Commands : Type 0 where
  tunnel : Str → Option FilePath → Commands
  proxy : ℕ → Str → Commands
  info : Commands

-- What becomes of the program.
pub data Outcome : Type 0 where
  failed : StartError → Outcome
  runs : Started → Outcome
  proxies : List (List Event) × Progress → Outcome
  printed : List Str → Outcome

-- The lines that `info` prints.
abbrev pub info_lines : List Str
info_lines =
    codes "mini-cloudflared v0.4.0"
    ∷ []
    ∷ codes "Usage:"
    ∷ codes "  mini-cloudflared tunnel --token <TOKEN>"
    ∷ codes "  mini-cloudflared tunnel --token <TOKEN> --config /path/to/config.yaml"
    ∷ codes "  TUNNEL_TOKEN=<TOKEN> mini-cloudflared tunnel"
    ∷ []
    ∷ codes "Config file (~/.cloudflared/config.yaml):"
    ∷ codes "  ingress:"
    ∷ codes "    - hostname: example.com"
    ∷ codes "      service: http://localhost:8080"
    ∷ codes "    - hostname: api.example.com"
    ∷ codes "      service: http://localhost:3000"
    ∷ codes "    - service: http_status:404   # catch-all required"
    ∷ []

abbrev started : Result StartError Started → Outcome
started (ok state) = runs state
started (err e) = failed e

module _ (codecs : Codecs) (readers : Readers) (files : Files)
    (lookup_host : Str → Result Str (List SocketAddr)) (shuffle : List SocketAddr → List SocketAddr)
    (lib : ProxyLib) (answers : List Answer) where
  unfoldable pub main : Commands → Outcome
  main (tunnel token config) = started (
      start_up codecs readers files lookup_host shuffle
        (record { token = token; quick_tunnel = false; config_file = config }))
  main (proxy port target) = proxies (run_proxy lib port target answers)
  main info = printed info_lines
