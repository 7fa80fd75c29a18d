-- ===== src/Edge.antt =====
-- `resolve_edge_addrs` of src/edge.rs.
pub mod Resolved
use argo_rust.Base.{
  ℕ, ◌+◌, ◌*◌, Bool, true, false, List, [], ◌∷◌, ◌++◌, map, Option, none, some, Str, codes,
  is_empty, decimal, read_digits, Result, ok, err, ok_or, ltb, ◌==◌, ◌||◌, length, ◌>>=◌,
  if◌then◌else◌,
}

pub data IpAddr : Type 0 where
  v4 : ℕ → ℕ → ℕ → ℕ → IpAddr
  v6 : List ℕ → IpAddr

pub record SocketAddr : Type 0 where
  pub ip : IpAddr
  pub port : ℕ

abbrev pub edge_hosts : List Str
edge_hosts = codes "region1.v2.argotunnel.com" ∷ codes "region2.v2.argotunnel.com" ∷ []

abbrev pub edge_port : ℕ
edge_port = 7844

abbrev pub fallback : List Str
fallback =
    codes "198.41.192.167"
    ∷ codes "198.41.192.67"
    ∷ codes "198.41.192.57"
    ∷ codes "198.41.200.13"
    ∷ []

-- The parts of a text between dots.
abbrev pub split_dots : Str → List Str
split_dots [] = [] ∷ []
split_dots (c ∷ s) = if c == b'.' then [] ∷ split_dots s else push c (split_dots s)
  where
    push : ℕ → List Str → List Str
    push c [] = (c ∷ []) ∷ []
    push c (part ∷ parts) = (c ∷ part) ∷ parts

-- An octet has one to three digits, no leading zero, and is below 256.
abbrev pub parse_octet : Str → Option ℕ
parse_octet [] = none
parse_octet (c ∷ []) = read_digits 256 0 (c ∷ [])
parse_octet (c ∷ d ∷ s) =
    if c == b'0' || ltb 1 (length s) then none else read_digits 256 0 (c ∷ d ∷ s)

-- `str::parse::<IpAddr>` on the texts with four parts.
abbrev pub parse_ipv4 : Str → Option IpAddr
parse_ipv4 s = octets (split_dots s)
  where
    quad : Option ℕ → Option ℕ → Option ℕ → Option ℕ → Option IpAddr
    quad (some a) (some b) (some c) (some d) = some (v4 a b c d)
    quad _ _ _ _ = none

    octets : List Str → Option IpAddr
    octets (a ∷ b ∷ c ∷ d ∷ []) =
        quad (parse_octet a) (parse_octet b) (parse_octet c) (parse_octet d)
    octets _ = none

unfoldable pub fallback_addrs : List Str → Result Str (List SocketAddr)
unfolding read_digits
fallback_addrs [] = ok []
fallback_addrs (ip ∷ ips) = do
  addr ← ok_or (parse_ipv4 ip) (codes "invalid IP address syntax")
  rest ← fallback_addrs ips
  ok (record { ip = addr; port = edge_port } ∷ rest)

abbrev pub endpoint : Str → Str
unfolding decimal
endpoint host = host ++ (codes ":" ++ decimal edge_port)

-- `lookup_host` is the resolver, with the addresses in the order that it yields them.
module _ (lookup_host : Str → Result Str (List SocketAddr)) where
  unfoldable pub lookups : List Str → List SocketAddr → List SocketAddr
  lookups [] addrs = addrs
  lookups (host ∷ hosts) addrs = elim (lookup_host (endpoint host)) [
    | ok resolved ↦
        let addrs' = addrs ++ resolved in if is_empty addrs' then lookups hosts addrs' else addrs'
    | err e ↦ lookups hosts addrs
  ]

  -- `shuffle` is the random order of this call.
  unfoldable pub resolve_edge_addrs :
      (List SocketAddr → List SocketAddr) → Result Str (List SocketAddr)
  resolve_edge_addrs shuffle =
      let addrs = lookups edge_hosts [] in
      if is_empty addrs
      then (do known ← fallback_addrs fallback; ok (shuffle known))
      else ok (shuffle addrs)
