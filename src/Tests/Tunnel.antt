-- ===== src/Tests/Tunnel.antt =====
-- A connection and its requests at concrete inputs.
use mathlib.Core.Option
use argo_rust.Config.{Lowering}
use argo_rust.Base.{
  List, map, false, ◌↔◌, is_empty, true, subst, ◌≡◌, refl, inl, inr, ◌==◌, Bool-cases, [], ◌∷◌,
  ◌++◌, Option, none, some, Str, codes, str_eq, Result, ok, err, if◌then◌else◌, starts_with,
  strip_prefix, parse_uint,
}
use argo_rust.CapnpRpc.Bytes.{Bytes}
use argo_rust.Config.{IngressRule, TokenCreds, Codecs, matches, status_code}
use argo_rust.Http.{Uri, Request, Response, Parsed, HttpLib}
use argo_rust.Ingress.Rules.{resolve}
use argo_rust.Origin.{crlf, dispatch, forward_http, raw_request, parse_http1_response}
use argo_rust.Origin.HeadReader.{NoReturn, read_head}
use argo_rust.Origin.RequestHead.{
  HasPlainHead, request_line, host_line, length_lines, read_head-raw_request,
}
use argo_rust.Tunnel.Headers.{hdr_upgrade, control_stream_val, rewrite_uri, shown_headers}
use argo_rust.Tunnel.Proxy.{Incoming, origin_request, origin_response, handle_proxy_stream}
use argo_rust.Tunnel.Proxied.{answer, handle_proxy_stream-status, handle_proxy_stream-two_headers}
use argo_rust.Tunnel.Sent.{In, InsertLaws, Gets, show, raw_request-Gets}
use argo_rust.Tests.HeaderMaps.{get, insert, insert_self, insert_other}
use argo_rust.Tunnel.Serve.{request, go_away, held, EdgeLib, serve}
use argo_rust.Tests.Registration as Registered
use argo_rust.Schema.Memory.{memory}
use argo_rust.Tunnel.ControlStream.{Platform, edge_over}
use argo_rust.Tunnel.Served.{StandsStill, Runs, serve_iff}

-- A value with a carriage return is refused.
abbrev header_value : Str → Option Bytes
header_value [] = some []
header_value (c ∷ s) =
    let rest = header_value s in if c == 13 then none else Option.map (λ r. c ∷ r) rest

-- An origin that answers with two headers.
abbrev answered : Result Str (Option Parsed)
answered = ok (
    some (record {
      header_len = 0;
      code = some 200;
      headers = (codes "a", codes "1") ∷ (codes "b", codes "2") ∷ [];
    }))

abbrev lib : HttpLib
lib = record {
  get = get;
  insert = insert;
  from_headers = λ headers. some headers;
  to_str = λ v. some v;
  header_value = header_value;
  from_u16 = λ n. some n;
  show_status = λ n. codes "status";
  parse_uri = λ s. some (record { path = s; path_and_query = some s });
  parse_url = λ s.
      if starts_with (codes "http://") s
      then some (record {
        scheme = codes "http";
        host_str = some (codes "localhost");
        port_or_known_default = some 80;
      })
      else none;
  parse_response = λ bytes. answered;
  exchange = λ host bytes. ok [];
}

lib-InsertLaws : InsertLaws lib
lib-InsertLaws = record { insert_self = insert_self; insert_other = insert_other }

refuses_crlf : (s t : Str) → header_value (s ++ (crlf ++ t)) ≡ none
refuses_crlf [] t = refl
refuses_crlf (c ∷ s) t = elim (Bool-cases (c == 13)) [
  | inl yes_it_is ↦ rw yes_it_is refl
  | inr no_it_is ↦ rw (no_it_is, refuses_crlf s t) refl
]

abbrev same : Lowering
same = record { lower = λ c. c ∷ []; is_final = λ before after. is_empty after }

abbrev wrapped : Uri
wrapped = record { path = codes "/x"; path_and_query = none }

abbrev proxied : Incoming
proxied = record {
  method = codes "GET";
  uri = wrapped;
  headers =
      (codes "host", codes "a.org")
      ∷ (codes "cookie", codes "a=1")
      ∷ (codes "cookie", codes "b=2")
      ∷ [];
  chunks = [];
}

abbrev control : Incoming
control = record {
  method = codes "GET";
  uri = wrapped;
  headers = (hdr_upgrade, control_stream_val) ∷ [];
  chunks = [];
}

proxied-HasPlainHead : HasPlainHead lib (codes "h") (origin_request lib same proxied wrapped)
unfolding origin_request str_eq starts_with
proxied-HasPlainHead = record {
  method_named = λ e. cc;
  method = (refl, (refl, (refl, tt)));
  path = (refl, tt);
  host = (refl, tt);
  headers = (
    record {
      named = λ e. cc;
      name = (refl, (refl, (refl, (refl, (refl, (refl, tt))))));
      text = λ t e. subst NoReturn (text_of e) (refl, (refl, (refl, tt)));
    },
    tt,
  );
}
  where
    text_of : {s t : Str} → some s ≡ some t → s ≡ t
    text_of e = cc

-- Of two cookies the origin gets the second.
raw_request-Gets_example :
    (headers : List (Str × Str)) × (read_head true
        (raw_request lib (codes "h") 80 (origin_request lib same proxied wrapped))
      ≡ some (
        request_line lib (origin_request lib same proxied wrapped)
            ∷ host_line lib (codes "h") 80
            ∷ (map show headers
                ++ (length_lines lib (origin_request lib same proxied wrapped).body
                    ++ codes "Connection: close" ∷ [])),
        (origin_request lib same proxied wrapped).body,
      ))
    × ((name text : Str) → In (name, text) headers ↔ Gets lib same lib-InsertLaws proxied name text)
raw_request-Gets_example =
    raw_request-Gets lib same lib-InsertLaws proxied wrapped (codes "h") 80 proxied-HasPlainHead

abbrev status_rule : IngressRule
status_rule = record { hostname = []; path = []; service = codes "http_status:404" }

is_404 : status_code status_rule ≡ some 404
unfolding status_code strip_prefix parse_uint
is_404 = refl

handle_proxy_stream-status_example :
    ((r : Request) → Option.map (λ a. a.status) (answer (dispatch lib status_rule r)) ≡ some 404)
    × (handle_proxy_stream lib same (status_rule ∷ []) proxied ≡ err (codes "invalid URL"))
unfolding resolve matches starts_with
handle_proxy_stream-status_example =
    handle_proxy_stream-status lib same (status_rule ∷ []) proxied status_rule 404 refl is_404 refl

abbrev site : IngressRule
site = record { hostname = []; path = []; service = codes "http://localhost" }

abbrev two_headers : Response
two_headers = record {
  status = 200;
  headers = (codes "a", codes "1") ∷ (codes "b", codes "2") ∷ [];
  body = [];
}

answers_two : origin_response lib same (site ∷ []) proxied ≡ ok two_headers
unfolding origin_response rewrite_uri dispatch resolve matches status_code strip_prefix str_eq
    starts_with forward_http parse_http1_response
answers_two = refl

shows_two : shown_headers lib two_headers.headers ≡ codes "a: 1" ∷ codes "b: 2" ∷ []
unfolding shown_headers str_eq
shows_two = refl

handle_proxy_stream-two_headers_example :
    handle_proxy_stream lib same (site ∷ []) proxied ≡ err (codes "invalid header")
handle_proxy_stream-two_headers_example =
    handle_proxy_stream-two_headers lib same refuses_crlf (site ∷ []) proxied two_headers
      (codes "a: 1") (codes "b: 2") [] answers_two shows_two

abbrev creds : TokenCreds
creds = record { a = codes "account"; s = codes "secret"; t = codes "tunnel" }

abbrev codecs : Codecs
codecs = record {
  standard = λ s. none;
  url_safe = λ s. none;
  url_safe_no_pad = λ s. none;
  from_slice = λ bytes. none;
}

abbrev platform : Platform
platform = record { os = codes "linux"; arch = codes "x86_64" }

-- An edge over the registration, on a connection that stands still.
abbrev edge : EdgeLib
edge = edge_over memory Registered.rpc_lib platform (λ req. ok tt) (λ s. ok (1 ∷ [])) false

edge-StandsStill : StandsStill edge
edge-StandsStill r = refl

serve_iff_example :
    (serve codecs edge lib creds []
        (request proxied ∷ request control ∷ request proxied ∷ go_away ∷ [])
      ≡ (proxied ∷ [], held))
    ↔ Runs codecs edge lib creds []
        (request proxied ∷ request control ∷ request proxied ∷ go_away ∷ [])
        (proxied ∷ [])
        held
serve_iff_example =
    serve_iff codecs edge lib creds [] edge-StandsStill
      (request proxied ∷ request control ∷ request proxied ∷ go_away ∷ []) (proxied ∷ []) held

-- A request with one header that is forwarded, one that is not, and a body.
abbrev posted : Request
posted = record {
  method = codes "POST";
  uri = wrapped;
  headers = (codes "accept", codes "x") ∷ (codes "host", codes "b.org") ∷ [];
  body = 1 ∷ 13 ∷ [];
}

posted-HasPlainHead : HasPlainHead lib (codes "h") posted
posted-HasPlainHead = record {
  method_named = λ e. cc;
  method = (refl, (refl, (refl, (refl, tt))));
  path = (refl, tt);
  host = (refl, tt);
  headers = (
    record {
      named = λ e. cc;
      name = (refl, (refl, (refl, (refl, (refl, (refl, tt))))));
      text = λ t e. subst NoReturn (text_of e) (refl, tt);
    },
    (
      record {
        named = λ e. cc;
        name = (refl, (refl, (refl, (refl, tt))));
        text = λ t e. subst NoReturn (text_of e) (refl, (refl, (refl, (refl, (refl, tt)))));
      },
      tt,
    ),
  );
}
  where
    text_of : {s t : Str} → some s ≡ some t → s ≡ t
    text_of e = cc

read_head-raw_request_example :
    read_head true (raw_request lib (codes "h") 80 posted)
    ≡ some (
      codes "POST / HTTP/1.1"
          ∷ host_line lib (codes "h") 80
          ∷ codes "accept: x"
          ∷ (length_lines lib (1 ∷ 13 ∷ []) ++ codes "Connection: close" ∷ []),
      1 ∷ 13 ∷ [],
    )
unfolding str_eq
read_head-raw_request_example = read_head-raw_request lib (codes "h") 80 posted posted-HasPlainHead
