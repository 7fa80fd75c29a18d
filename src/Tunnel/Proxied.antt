-- ===== src/Tunnel/Proxied.antt =====
-- What `handle_proxy_stream` forwards and answers.
use argo_rust.Base.{
  ◌≡◌, refl, ℕ, List, ◌∷◌, ◌++◌, Option, none, some, some_or, Str, codes, Result, ok, err,
}
use mathlib.Core.Option
use argo_rust.Config.{Lowering, IngressRule, status_code}
use argo_rust.Http.{Request, Response, HttpLib}
use argo_rust.Ingress.Rules.{IngressTable, resolve}
use argo_rust.Origin.{dispatch, crlf}
use argo_rust.Origin.Forwarded.{dispatch_status}
use argo_rust.Tunnel.Headers.{
  rewrite_uri, shown_headers, serialize_headers, join_lines, header_text,
}
use argo_rust.Tunnel.Proxy.{Incoming, origin_response, handle_proxy_stream}

abbrev pub answer : Result Str Response → Option Response
answer (ok r) = some r
answer (err e) = none

module _ (lib : HttpLib) (wide : Lowering) where
  -- The rule that a request meets.
  abbrev pub met : IngressTable → Incoming → Option IngressRule
  met table req = resolve wide table (header_text lib req.headers (codes "host")) req.uri.path

  no_url_lem :
      (table : IngressTable) (req : Incoming) (rule : IngressRule)
      → met table req ≡ some rule
      → lib.parse_url rule.service ≡ none
      → origin_response lib wide table req ≡ err (codes "invalid URL")
  unfolding origin_response rewrite_uri
  no_url_lem table req rule m none_parsed = rw (origin_response, m, none_parsed) refl

  -- A rule `http_status:n` whose service is no URL for the crate url is never answered, although
  -- `dispatch` has its status for it: the URI is rewritten first, and that fails.
  pub handle_proxy_stream-status :
      (table : IngressTable) (req : Incoming) (rule : IngressRule) (code : ℕ)
      → met table req ≡ some rule
      → status_code rule ≡ some code
      → lib.parse_url rule.service ≡ none
      → ((r : Request)
          → Option.map (λ a. a.status) (answer (dispatch lib rule r))
            ≡ some (some_or (lib.from_u16 code) 404))
        × (handle_proxy_stream lib wide table req ≡ err (codes "invalid URL"))
  unfolding handle_proxy_stream
  handle_proxy_stream-status table req rule code m is_status none_parsed = (
    λ r. rw (dispatch_status lib rule code r is_status) refl,
    rw (no_url_lem table req rule m none_parsed) refl,
  )

  -- An answer with two headers besides its length cannot be sent: the serialized headers hold a
  -- line break, which is refused in the value of a header.
  pub handle_proxy_stream-two_headers :
      ((s t : Str) → lib.header_value (s ++ (crlf ++ t)) ≡ none)
      → (table : IngressTable) (req : Incoming) (resp : Response) (a b : Str) (rest : List Str)
      → origin_response lib wide table req ≡ ok resp
      → shown_headers lib resp.headers ≡ a ∷ b ∷ rest
      → handle_proxy_stream lib wide table req ≡ err (codes "invalid header")
  unfolding handle_proxy_stream serialize_headers
  handle_proxy_stream-two_headers refuses table req resp a b rest e shown =
      rw (e, shown, refuses a (join_lines (b ∷ rest))) refl
