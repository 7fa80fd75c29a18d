-- ===== src/Edge/Resolved.antt =====
-- Which addresses `resolve_edge_addrs` gives.
use argo_rust.Base.{
  ◌≡◌, refl, ◌∙◌, ◌⊎◌, inl, inr, ◌>>=◌, Result-cases, false, List, [], ◌∷◌, Str, is_empty, Result,
  ok, err, if◌then◌else◌,
}
use mathlib.Core.List.{Permᴰ}
use argo_rust.Edge.{
  v4, endpoint, SocketAddr, edge_hosts, fallback, fallback_addrs, lookups, resolve_edge_addrs,
}

abbrev pub known_addrs : List SocketAddr
known_addrs =
    record { ip = v4 198 41 192 167; port = 7844 }
    ∷ record { ip = v4 198 41 192 67; port = 7844 }
    ∷ record { ip = v4 198 41 192 57; port = 7844 }
    ∷ record { ip = v4 198 41 200 13; port = 7844 }
    ∷ []

-- The addresses that the first region with any gives, or else the known ones, all at the port.
pub data Chosen (lookup_host : Str → Result Str (List SocketAddr))
    : List Str → List SocketAddr → Type 0 where
  answered :
      (host : Str) (hosts : List Str) (a : SocketAddr) (addrs : List SocketAddr)
      → lookup_host (endpoint host) ≡ ok (a ∷ addrs)
      → Chosen lookup_host (host ∷ hosts) (a ∷ addrs)
  silent :
      (host : Str) (hosts : List Str) (addrs : List SocketAddr)
      → (lookup_host (endpoint host) ≡ ok []) ⊎ ((e : Str) × (lookup_host (endpoint host) ≡ err e))
      → Chosen lookup_host hosts addrs
      → Chosen lookup_host (host ∷ hosts) addrs
  known : Chosen lookup_host [] known_addrs

same_emptiness : {xs ys : List SocketAddr} → Permᴰ xs ys → is_empty xs ≡ is_empty ys
same_emptiness Permᴰ.nil = refl
same_emptiness (Permᴰ.cons e p) = refl
same_emptiness (Permᴰ.swap e f) = refl
same_emptiness (Permᴰ.trans p q) = same_emptiness p ∙ same_emptiness q

module _ (lookup_host : Str → Result Str (List SocketAddr))
    (shuffle : List SocketAddr → List SocketAddr) where
  abbrev settle : List SocketAddr → Result Str (List SocketAddr)
  settle addrs =
      if is_empty addrs
      then (fallback_addrs fallback >>= λ k. ok (shuffle k))
      else ok (shuffle addrs)

  settle_lem :
      (hosts : List Str)
      → (addrs : List SocketAddr) × Chosen lookup_host hosts addrs
        × (is_empty addrs ≡ false)
        × (settle (lookups lookup_host hosts []) ≡ ok (shuffle addrs))
  unfolding lookups fallback_addrs
  settle_lem [] = (known_addrs, known, refl, refl)
  settle_lem (host ∷ hosts) = elim (Result-cases (lookup_host (endpoint host))) [
    | inl ([], e) ↦
        let (addrs, chosen, left, found) = settle_lem hosts in
        (addrs, silent host hosts addrs (inl e) chosen, left, rw (e, lookups) found)
    | inl (a ∷ addrs, e) ↦ (a ∷ addrs, answered host hosts a addrs e, refl, rw (e, lookups) refl)
    | inr (m, e) ↦
        let (addrs, chosen, left, found) = settle_lem hosts in
        (addrs, silent host hosts addrs (inr (m, e)) chosen, left, rw (e, lookups) found)
  ]

  -- Resolving never fails and never gives an empty list: it gives, in some order, the addresses of
  -- the first region that has any, and else the known addresses.
  pub resolve_edge_addrs-Chosen :
      ((xs : List SocketAddr) → Permᴰ (shuffle xs) xs)
      → (addrs : List SocketAddr) × Chosen lookup_host edge_hosts addrs
        × (resolve_edge_addrs lookup_host shuffle ≡ ok (shuffle addrs))
        × Permᴰ (shuffle addrs) addrs
        × (is_empty (shuffle addrs) ≡ false)
  unfolding resolve_edge_addrs
  resolve_edge_addrs-Chosen perm =
      let (addrs, chosen, some_left, found) = settle_lem edge_hosts in
      (addrs, chosen, found, perm addrs, same_emptiness (perm addrs) ∙ some_left)
