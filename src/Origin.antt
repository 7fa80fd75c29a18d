-- ===== src/Origin.antt =====
-- src/origin.rs: the answer to a request by its rule, and the forwarding over HTTP/1.1.
pub mod Forwarded
pub mod HeadReader
pub mod RequestHead
use argo_rust.Base.{
  ℕ, ◌+◌, Bool, true, false, ◌||◌, List, [], ◌∷◌, ◌++◌, Option, none, some, some_or, Str, codes,
  str_eq, is_empty, decimal, length, drop, Result, ok, err, ok_or, ◌>>=◌, if◌then◌else◌,
}
use argo_rust.CapnpRpc.Bytes.{Bytes}
use argo_rust.Config.{IngressRule, status_code}
use argo_rust.Http.{HeaderMap, Uri, Url, Request, Response, Parsed, HttpLib}

unfoldable pub bad_gateway : Response
bad_gateway = record { status = 502; headers = []; body = codes "502 Bad Gateway\n" }

unfoldable pub not_found : Response
not_found = record { status = 404; headers = []; body = codes "404 No matching ingress rule\n" }

unfoldable pub hello_world_response : Response
hello_world_response = record {
  status = 200;
  headers = (codes "content-type", codes "text/html") ∷ [];
  body =
      codes
        "<!DOCTYPE html><html><body><h1>mini-cloudflared</h1><p>Hello World! The tunnel is working.</p></body></html>";
}

abbrev pub crlf : Str
crlf = 13 ∷ 10 ∷ []

-- The headers that are not forwarded.
abbrev pub is_hop_by_hop : Str → Bool
is_hop_by_hop k =
    str_eq k (codes "host")
    || str_eq k (codes "connection")
    || str_eq k (codes "proxy-connection")
    || str_eq k (codes "transfer-encoding")
    || str_eq k (codes "upgrade")

module _ (lib : HttpLib) where
  unfoldable pub parse_http1_response : Bytes → Result Str Response
  unfolding bad_gateway
  parse_http1_response raw = do
    status ← lib.parse_response raw
    elim status [
      | none ↦ ok bad_gateway
      | some p ↦ do
        code ← ok_or (lib.from_u16 (some_or p.code 502)) (codes "invalid status code")
        headers ← ok_or (lib.from_headers p.headers) (codes "invalid header")
        ok (record { status = code; headers = headers; body = drop p.header_len raw })
    ]

  -- The line of a header, if it is forwarded and its value is text.
  abbrev pub header_line : Str × Bytes → Str
  header_line (k, v) =
      if is_hop_by_hop k
      then []
      else (elim (lib.to_str v) [ none ↦ [] | some text ↦ k ++ (codes ": " ++ (text ++ crlf)) ])

  unfoldable pub header_lines : HeaderMap → Str
  header_lines [] = []
  header_lines (h ∷ headers) = header_line h ++ header_lines headers

  unfoldable pub raw_request : Str → ℕ → Request → Bytes
  unfolding header_lines decimal
  raw_request host port req =
      let path = some_or req.uri.path_and_query (codes "/") in
      let content_length =
        if is_empty req.body
        then []
        else codes "Content-Length: " ++ (decimal (length req.body) ++ crlf) in
      req.method
      ++ (codes " "
          ++ (path
              ++ (codes " HTTP/1.1"
                  ++ (crlf
                      ++ (codes "Host: "
                          ++ (host
                              ++ (codes ":"
                                  ++ (decimal port
                                      ++ (crlf
                                          ++ (header_lines req.headers
                                              ++ (content_length
                                                  ++ (codes "Connection: close"
                                                      ++ (crlf ++ (crlf ++ req.body))))))))))))))

  unfoldable pub forward_http : Str → Request → Result Str Response
  unfolding raw_request parse_http1_response decimal
  forward_http origin_url req = do
    origin ← ok_or (lib.parse_url origin_url) (codes "invalid URL")
    let host = some_or origin.host_str (codes "127.0.0.1")
    let port = some_or origin.port_or_known_default 80
    raw ← lib.exchange (host ++ (codes ":" ++ decimal port)) (raw_request host port req)
    parse_http1_response raw

  unfoldable pub dispatch : IngressRule → Request → Result Str Response
  unfolding forward_http hello_world_response status_code
  dispatch rule req = elim (status_code rule) [
    | some code ↦
        let status = some_or (lib.from_u16 code) 404 in
        ok (record { status = status; headers = []; body = lib.show_status status })
    | none ↦
        if str_eq rule.service (codes "hello_world")
        then ok hello_world_response
        else forward_http rule.service req
  ]
