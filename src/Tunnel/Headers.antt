-- ===== src/Tunnel/Headers.antt =====
-- The helpers of the proxied streams in src/tunnel.rs.
use argo_rust.Base.{
  List, [], ◌∷◌, ◌++◌, some_or, and_then, Str, codes, str_eq, decimal, Result, ok, err, ok_or,
  ◌>>=◌, if◌then◌else◌,
}
use argo_rust.CapnpRpc.Bytes.{Bytes}
use argo_rust.Http.{HeaderMap, Uri, HttpLib}
use argo_rust.Origin.{crlf}

abbrev pub hdr_upgrade : Str
hdr_upgrade = codes "cf-cloudflared-proxy-connection-upgrade"

abbrev pub hdr_resp_headers : Str
hdr_resp_headers = codes "cf-cloudflared-proxy-response-headers"

abbrev pub control_stream_val : Str
control_stream_val = codes "control-stream"

abbrev pub content_length : Str
content_length = codes "content-length"

-- The chunks of a body, of which the ones that failed are passed over.
unfoldable pub drain_body : List (Result Str Bytes) → Bytes
drain_body [] = []
drain_body (ok bytes ∷ chunks) = bytes ++ drain_body chunks
drain_body (err e ∷ chunks) = drain_body chunks

-- `join("\r\n")`.
abbrev pub join_lines : List Str → Str
join_lines [] = []
join_lines (line ∷ []) = line
join_lines (line ∷ next ∷ lines) = line ++ (crlf ++ join_lines (next ∷ lines))

module _ (lib : HttpLib) where
  unfoldable pub rewrite_uri : Uri → Str → Result Str Uri
  unfolding decimal
  rewrite_uri original service_url = do
    base ← ok_or (lib.parse_url service_url) (codes "invalid URL")
    let path = some_or original.path_and_query (codes "/")
    let host = some_or base.host_str (codes "127.0.0.1")
    let port = some_or base.port_or_known_default 80
    ok_or
        (lib.parse_uri
          (base.scheme ++ (codes "://" ++ (host ++ (codes ":" ++ (decimal port ++ path))))))
        (codes "invalid URI")

  abbrev pub shown : Str × Bytes → Str
  shown (k, v) = k ++ (codes ": " ++ some_or (lib.to_str v) [])

  unfoldable pub shown_headers : HeaderMap → List Str
  shown_headers [] = []
  shown_headers ((k, v) ∷ headers) =
      let rest = shown_headers headers in
      if str_eq k content_length then rest else shown (k, v) ∷ rest

  unfoldable pub serialize_headers : HeaderMap → Str
  unfolding shown_headers
  serialize_headers headers = join_lines (shown_headers headers)

  -- `headers().get(name).and_then(|v| v.to_str().ok()).unwrap_or("")`
  abbrev pub header_text : HeaderMap → Str → Str
  header_text headers name = some_or (and_then (lib.get headers name) (λ v. lib.to_str v)) []
