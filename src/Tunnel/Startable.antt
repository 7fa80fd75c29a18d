-- ===== src/Tunnel/Startable.antt =====
-- When the tunnel starts, and what the loop then runs with.
use mathlib.Core.List.{Permᴰ}
use argo_rust.Base.{
  ◌≡◌, ◌↔◌, inl, inr, refl, subst, false, List, some, Str, is_empty, Result, ok, Result-cases,
  Option-cases, Bool-cases,
}
use argo_rust.Config.{Codecs, from_token}
use argo_rust.Edge.{SocketAddr, resolve_edge_addrs}
use argo_rust.Edge.Resolved.{resolve_edge_addrs-Chosen}
use argo_rust.Ingress.Reload.{IsComplete, Loads, load_from_file_iff}
use argo_rust.Ingress.Rules.{Readers, Files, load_from_file, default_config_path, make_table}
use argo_rust.Tunnel.StartUp.{TunnelConfig, Started, or_default, start_up}

module _ (codecs : Codecs) (readers : Readers) (files : Files)
    (lookup_host : Str → Result Str (List SocketAddr))
    (shuffle : List SocketAddr → List SocketAddr) where
  -- The token reads, there is a configuration file, given or found, and it loads as complete rules.
  pub record Starts (cfg : TunnelConfig) (s : Started) : Type 0 where
    pub token : from_token codecs cfg.token ≡ ok s.creds
    pub path : or_default cfg.config_file (default_config_path files) ≡ some s.config_path
    pub loads : Loads readers files s.config_path s.table
    pub complete : IsComplete s.table
    pub edges : resolve_edge_addrs lookup_host shuffle ≡ ok s.addrs

  start_up_complete :
      (cfg : TunnelConfig) (s : Started)
      → is_empty s.addrs ≡ false
      → Starts cfg s
      → start_up codecs readers files lookup_host shuffle cfg ≡ ok s
  unfolding start_up make_table
  start_up_complete cfg s some_left h =
      let loaded =
        (load_from_file_iff readers files s.config_path s.table).1 (h.loads, h.complete) in
      rw (h.token, h.path, loaded, h.edges, some_left) refl

  start_up_sound :
      (cfg : TunnelConfig) (s : Started)
      → start_up codecs readers files lookup_host shuffle cfg ≡ ok s
      → Starts cfg s
  unfolding start_up make_table
  start_up_sound cfg s e = elim (Result-cases (from_token codecs cfg.token)) [
    | inr (m, w) ↦ let wrong = (rw w at e) in cc wrong
    | inl (creds, t) ↦
        elim (Option-cases (or_default cfg.config_file (default_config_path files))) [
          | inl w ↦ let wrong = (rw (t, w) at e) in cc wrong
          | inr (path, p) ↦ elim (Result-cases (load_from_file readers files path)) [
            | inr (m, w) ↦ let wrong = (rw (t, p, w) at e) in cc wrong
            | inl (rules, l) ↦ elim (Result-cases (resolve_edge_addrs lookup_host shuffle)) [
              | inr (m, w) ↦ let wrong = (rw (t, p, l, w) at e) in cc wrong
              | inl (addrs, r) ↦ elim (Bool-cases (is_empty addrs)) [
                | inl w ↦ let wrong = (rw (t, p, l, r, w) at e) in cc wrong
                | inr left ↦
                    let last = (rw (t, p, l, r, left) at e) in
                    let (loads, complete) = (load_from_file_iff readers files path rules).0 l in
                    let started : Started = record {
                      creds = creds;
                      config_path = path;
                      table = rules;
                      addrs = addrs;
                    } in
                    let same : started ≡ s = cc last in
                    subst (λ x. Starts cfg x) same
                      (record {
                        token = t;
                        path = p;
                        loads = loads;
                        complete = complete;
                        edges = r;
                      })
              ]
            ]
          ]
        ]
  ]

  found_some :
      ((xs : List SocketAddr) → Permᴰ (shuffle xs) xs)
      → (addrs : List SocketAddr) → resolve_edge_addrs lookup_host shuffle ≡ ok addrs
      → is_empty addrs ≡ false
  found_some perm addrs e =
      let (known, chosen, found, same, left) = resolve_edge_addrs-Chosen lookup_host shuffle perm in
      let equal : shuffle known ≡ addrs = cc in subst (λ xs. is_empty xs ≡ false) equal left

  -- Where shuffling only reorders, the tunnel starts with `s` exactly when the token reads, the given
  -- or the default file loads as rules with a catch-all at the end, and `s` holds them and the
  -- addresses: that there are none never stops it.
  pub start_up_iff :
      ((xs : List SocketAddr) → Permᴰ (shuffle xs) xs)
      → (cfg : TunnelConfig) (s : Started)
      → (start_up codecs readers files lookup_host shuffle cfg ≡ ok s) ↔ Starts cfg s
  start_up_iff perm cfg s =
      (start_up_sound cfg s, λ h. start_up_complete cfg s (found_some perm s.addrs h.edges) h)
