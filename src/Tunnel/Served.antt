-- ===== src/Tunnel/Served.antt =====
-- Which requests of a connection are served.
use argo_rust.Base.{
  ◌≡◌, ◌↔◌, inl, inr, refl, sym, ap, subst, ◌∙◌, true, false, Bool-cases, Result-cases, List, [],
  ◌∷◌, All, Str, ok, err,
}
use argo_rust.CapnpRpc.Bytes.{Bytes}
use argo_rust.Config.{TokenCreds, Codecs}
use argo_rust.Http.{HttpLib}
use argo_rust.Tunnel.Proxy.{Incoming}
use argo_rust.Tunnel.Serve.{
  Accepted, request, go_away, accept_error, closed, Progress, returned, accepting, held, EdgeLib,
  Registration, unanswered, control_done, keeps_alive, keep_on, handle_control_stream, is_control,
  serve,
}

-- What h2 promises of a connection that nobody polls: its streams stand still, so a call on one of
-- them is not answered. The accept loop polls the connection in `accept` alone, and not while it
-- waits for the control stream.
abbrev pub StandsStill : EdgeLib → Type 0
StandsStill edge = (r : Registration) → edge.rpc_register r ≡ unanswered

module _ (codecs : Codecs) (edge : EdgeLib) (lib : HttpLib) (creds : TokenCreds) (id : Bytes) where
  -- A request that is handed to a task of its own.
  abbrev pub IsProxied : Incoming → Type 0
  IsProxied req = is_control codecs edge lib creds id req ≡ false

  abbrev pub requests : List Incoming → List Accepted → List Accepted
  requests [] rest = rest
  requests (req ∷ reqs) rest = request req ∷ requests reqs rest

  -- Where the loop stops on what `accept` answers next, and how.
  pub data Stops : List Accepted → Progress → Type 0 where
    waits : Stops [] accepting
    goes_away : (rest : List Accepted) → Stops (go_away ∷ rest) (returned (ok tt))
    fails : (e : Str) (rest : List Accepted) → Stops (accept_error e ∷ rest) (returned (err e))
    ends : (rest : List Accepted) → Stops (closed ∷ rest) (returned (ok tt))
    refuses :
        (req : Incoming) (e : Str) (rest : List Accepted)
        → is_control codecs edge lib creds id req ≡ true
        → edge.send_response req ≡ err e
        → Stops (request req ∷ rest) (returned (err e))
    no_tunnel :
        (req : Incoming) (e : Str) (rest : List Accepted)
        → is_control codecs edge lib creds id req ≡ true
        → edge.send_response req ≡ ok tt
        → edge.parse_uuid creds.t ≡ err e
        → Stops (request req ∷ rest) (returned (err e))
    holds :
        (req : Incoming) (tunnel_id : Bytes) (rest : List Accepted)
        → is_control codecs edge lib creds id req ≡ true
        → edge.send_response req ≡ ok tt
        → edge.parse_uuid creds.t ≡ ok tunnel_id
        → Stops (request req ∷ rest) held

  -- A run of the loop: requests that are proxied, and then what stops it.
  abbrev pub Runs : List Accepted → List Incoming → Progress → Type 0
  Runs answers spawned end =
      (rest : List Accepted) × (answers ≡ requests spawned rest)
      × All IsProxied spawned
      × Stops rest end

  -- What the control stream comes to.
  sent_lem :
      (req : Incoming) {e : Str}
      → edge.send_response req ≡ err e
      → handle_control_stream codecs edge creds id req ≡ control_done (err e)
  unfolding handle_control_stream
  sent_lem req sent = rw (handle_control_stream, sent) refl

  parsed_lem :
      (req : Incoming) {e : Str}
      → edge.send_response req ≡ ok tt
      → edge.parse_uuid creds.t ≡ err e
      → handle_control_stream codecs edge creds id req ≡ control_done (err e)
  unfolding handle_control_stream
  parsed_lem req sent parsed = rw (handle_control_stream, sent, parsed) refl

  called_lem :
      StandsStill edge
      → (req : Incoming) {tunnel_id : Bytes} → edge.send_response req ≡ ok tt
      → edge.parse_uuid creds.t ≡ ok tunnel_id
      → handle_control_stream codecs edge creds id req ≡ keeps_alive
  unfolding handle_control_stream
  called_lem still req sent parsed = rw (handle_control_stream, sent, parsed, still) refl

  control_lem :
      (req : Incoming) (rest : List Accepted)
      → is_control codecs edge lib creds id req ≡ true
      → serve codecs edge lib creds id (request req ∷ rest)
        ≡ keep_on codecs edge lib creds id
            (handle_control_stream codecs edge creds id req)
            (serve codecs edge lib creds id rest)
  unfolding serve
  control_lem req rest c = rw c refl

  Stops-serve :
      StandsStill edge
      → {rest : List Accepted} {end : Progress} → Stops rest end
      → serve codecs edge lib creds id rest ≡ ([], end)
  unfolding serve
  Stops-serve still waits = refl
  Stops-serve still (goes_away rest) = refl
  Stops-serve still (fails e rest) = refl
  Stops-serve still (ends rest) = refl
  Stops-serve still (refuses req e rest c sent) =
      rw (control_lem req rest c, sent_lem req sent) refl
  Stops-serve still (no_tunnel req e rest c sent parsed) =
      rw (control_lem req rest c, parsed_lem req sent parsed) refl
  Stops-serve still (holds req tunnel_id rest c sent parsed) =
      rw (control_lem req rest c, called_lem still req sent parsed) refl

  serve-requests :
      (reqs : List Incoming) (rest : List Accepted) {end : Progress}
      → All IsProxied reqs
      → serve codecs edge lib creds id rest ≡ ([], end)
      → serve codecs edge lib creds id (requests reqs rest) ≡ (reqs, end)
  unfolding serve
  serve-requests [] rest h stops = stops
  serve-requests (req ∷ reqs) rest (p, h) stops = rw (p, serve-requests reqs rest h stops) refl

  -- A control stream stops the loop.
  control-Stops :
      (req : Incoming) (rest : List Accepted)
      → is_control codecs edge lib creds id req ≡ true
      → (end : Progress) × Stops (request req ∷ rest) end
  control-Stops req rest c = elim (Result-cases (edge.send_response req)) [
    | inl (tt, sent) ↦ elim (Result-cases (edge.parse_uuid creds.t)) [
      | inl (tunnel_id, parsed) ↦ (held, holds req tunnel_id rest c sent parsed)
      | inr (e, parsed) ↦ (returned (err e), no_tunnel req e rest c sent parsed)
    ]
    | inr (e, sent) ↦ (returned (err e), refuses req e rest c sent)
  ]

  runs_lem :
      (answers : List Accepted)
      → (spawned : List Incoming) × (end : Progress) × Runs answers spawned end
  runs_lem [] = ([], accepting, ([], refl, tt, waits))
  runs_lem (go_away ∷ rest) = ([], returned (ok tt), (go_away ∷ rest, refl, tt, goes_away rest))
  runs_lem (accept_error e ∷ rest) =
      ([], returned (err e), (accept_error e ∷ rest, refl, tt, fails e rest))
  runs_lem (closed ∷ rest) = ([], returned (ok tt), (closed ∷ rest, refl, tt, ends rest))
  runs_lem (request req ∷ rest) = elim (Bool-cases (is_control codecs edge lib creds id req)) [
    | inl c ↦
        let (end, stops) = control-Stops req rest c in
        ([], end, (request req ∷ rest, refl, tt, stops))
    | inr p ↦
        let (spawned, end, (later, shape, proxied, stops)) = runs_lem rest in
        (
          req ∷ spawned,
          end,
          (later, ap (λ (r : List Accepted). request req ∷ r) shape, (p, proxied), stops),
        )
  ]

  Runs-serve :
      StandsStill edge
      → {answers : List Accepted} {spawned : List Incoming} {end : Progress}
      → Runs answers spawned end
      → serve codecs edge lib creds id answers ≡ (spawned, end)
  Runs-serve still (rest, shape, proxied, stops) =
      rw shape (serve-requests _ rest proxied (Stops-serve still stops))

  -- On a connection whose streams stand still while the loop waits for the control stream: the loop
  -- spawns exactly the requests in front of the first control stream, or of the end, a GOAWAY or an
  -- error of `accept`, in their order; a control stream that is answered and whose tunnel id reads
  -- holds it for ever, and one that is not ends the connection with the error.
  pub serve_iff :
      StandsStill edge
      → (answers : List Accepted) (spawned : List Incoming) (end : Progress)
      → (serve codecs edge lib creds id answers ≡ (spawned, end)) ↔ Runs answers spawned end
  serve_iff still answers spawned end = (
    λ e.
        let (spawned', end', runs) = runs_lem answers in
        let same = sym (Runs-serve still runs) ∙ e in subst (λ r. Runs answers r.0 r.1) same runs,
    Runs-serve still,
  )
