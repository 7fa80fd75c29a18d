-- ===== src/Tunnel/StartUp.antt =====
-- `run_tunnel` of src/tunnel.rs up to its loop, and `TunnelConfig` of src/config.rs.
use argo_rust.Base.{
  Bool, not, List, Option, none, some, Str, is_empty, Result, ok, err, ok_or, ensure, ◌>>=◌, ◌>>◌,
}
use argo_rust.Config.{TokenCreds, TokenError, Codecs, from_token}
use argo_rust.Edge.{SocketAddr, resolve_edge_addrs}
use argo_rust.Ingress.FilePath.{FilePath}
use argo_rust.Ingress.Rules.{
  ConfigError, Readers, Files, load_from_file, default_config_path, IngressTable, make_table,
}

pub record TunnelConfig : Type 0 where
  pub token : Str
  pub quick_tunnel : Bool
  pub config_file : Option FilePath

pub data StartError : Type 0 where
  bad_token : TokenError → StartError
  no_config_file : StartError
  bad_config : ConfigError → StartError
  no_lookup : Str → StartError
  no_edge_addresses : StartError

-- What the loop runs with; `config_path` is also what the reload task reads.
pub record Started : Type 0 where
  pub creds : TokenCreds
  pub config_path : FilePath
  pub table : IngressTable
  pub addrs : List SocketAddr

-- An error under a new name.
abbrev pub map_err {ℓ} : {E F : Type 0} {A : Type ℓ} → (E → F) → Result E A → Result F A
map_err f (ok a) = ok a
map_err f (err e) = err (f e)

-- `Option::or_else`.
abbrev pub or_default {ℓ} : {A : Type ℓ} → Option A → Option A → Option A
or_default none d = d
or_default (some a) d = some a

module _ (codecs : Codecs) (readers : Readers) (files : Files)
    (lookup_host : Str → Result Str (List SocketAddr))
    (shuffle : List SocketAddr → List SocketAddr) where
  -- `make_tls_config` cannot fail.
  unfoldable pub start_up : TunnelConfig → Result StartError Started
  start_up cfg = do
    creds ← map_err bad_token (from_token codecs cfg.token)
    config_path ← ok_or (or_default cfg.config_file (default_config_path files)) no_config_file
    rules ← map_err bad_config (load_from_file readers files config_path)
    addrs ← map_err no_lookup (resolve_edge_addrs lookup_host shuffle)
    ensure (not (is_empty addrs)) no_edge_addresses
    ok (record {
      creds = creds;
      config_path = config_path;
      table = make_table rules;
      addrs = addrs;
    })
