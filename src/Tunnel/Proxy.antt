-- ===== src/Tunnel/Proxy.antt =====
-- `handle_proxy_stream` of src/tunnel.rs.
use argo_rust.Config.{Lowering}
use argo_rust.Base.{
  Bool, ◌||◌, List, [], ◌∷◌, ◌++◌, none, some, Str, codes, str_eq, starts_with, Result, ok, err,
  ok_or, ◌>>=◌, if◌then◌else◌,
}
use argo_rust.CapnpRpc.Bytes.{Bytes}
use argo_rust.Http.{HeaderMap, Uri, Request, Response, HttpLib}
use argo_rust.Ingress.Rules.{IngressTable, resolve}
use argo_rust.Origin.{dispatch, bad_gateway, not_found}
use argo_rust.Tunnel.Headers.{
  hdr_upgrade, hdr_resp_headers, content_length, drain_body, rewrite_uri, serialize_headers,
  header_text,
}

-- A request of the edge whose body arrives in chunks.
pub record Incoming : Type 0 where
  pub method : Str
  pub uri : Uri
  pub headers : HeaderMap
  pub chunks : List (Result Str Bytes)

abbrev pub is_dropped : Str → Bool
is_dropped k = starts_with (codes ":") k || str_eq k (codes "host") || str_eq k hdr_upgrade

-- `Result::unwrap_or_else`, with an answer that does not depend on the error.
abbrev pub or_answer : Result Str Response → Response → Response
or_answer (ok r) d = r
or_answer (err e) d = d

-- `wide` is what lower case takes from Unicode's tables.
module _ (lib : HttpLib) (wide : Lowering) where
  unfoldable pub copy_headers : HeaderMap → HeaderMap → HeaderMap
  copy_headers [] into = into
  copy_headers ((k, v) ∷ headers) into =
      if is_dropped k then copy_headers headers into else copy_headers headers (lib.insert into k v)

  unfoldable pub origin_request : Incoming → Uri → Request
  unfolding copy_headers drain_body
  origin_request req uri = record {
    method = req.method;
    uri = uri;
    headers = copy_headers req.headers [];
    body = drain_body req.chunks;
  }

  unfoldable pub origin_response : IngressTable → Incoming → Result Str Response
  unfolding rewrite_uri origin_request not_found bad_gateway
  origin_response table req =
      elim (resolve wide table (header_text lib req.headers (codes "host")) req.uri.path) [
        | none ↦ ok not_found
        | some rule ↦ do
          uri ← rewrite_uri lib req.uri rule.service
          ok (or_answer (dispatch lib rule (origin_request req uri)) bad_gateway)
      ]

  abbrev pub length_header : HeaderMap → List (Str × Bytes)
  length_header headers = elim (lib.get headers content_length) [
    | none ↦ []
    | some v ↦ (content_length, v) ∷ []
  ]

  -- What is sent to the edge: its body is empty exactly when the stream ends with the head.
  unfoldable pub handle_proxy_stream : IngressTable → Incoming → Result Str Response
  unfolding origin_response serialize_headers
  handle_proxy_stream table req = do
    origin_resp ← origin_response table req
    value ←
        ok_or (lib.header_value (serialize_headers lib origin_resp.headers))
          (codes "invalid header")
    headers ←
        ok_or
          (lib.from_headers (length_header origin_resp.headers ++ (hdr_resp_headers, value) ∷ []))
          (codes "invalid header")
    ok (record { status = origin_resp.status; headers = headers; body = origin_resp.body })
