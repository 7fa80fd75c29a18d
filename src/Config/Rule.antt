-- ===== src/Config/Rule.antt =====
-- `IngressRule` of src/config.rs.
use argo_rust.Base.{
  ℕ, ◌+◌, ◌==◌, ◌^◌, Bool, true, false, not, ◌&&◌, ◌||◌, [], ◌∷◌, ◌++◌, Option, Str, codes,
  is_empty, str_eq, starts_with, ends_with, before, strip_prefix, drop, parse_uint, and_then, ltb,
  leb, if◌then◌else◌,
}

pub record IngressRule : Type 0 where
  pub hostname : Str
  pub path : Str
  pub service : Str

-- What `str::to_lowercase` takes from Unicode's tables: the lower case of a character beyond ASCII,
-- and whether a capital sigma between two texts, the first of them read backwards, ends a word.
pub record Lowering : Type 0 where
  pub lower : ℕ → Str
  pub is_final : Str → Str → Bool

-- The ASCII letters are written out, and the sigma, the one letter whose lower case depends on what
-- stands around it.
abbrev pub lower_char : Lowering → Str → ℕ → Str → Str
lower_char wide before c after =
    if ltb c 128
    then (if leb b'A' c && leb c b'Z' then (c + 32) ∷ [] else c ∷ [])
    else if c == 0x3a3
    then (if Lowering.is_final wide before after then 0x3c2 ∷ [] else 0x3c3 ∷ [])
    else Lowering.lower wide c

-- The lower case of a text behind another, which is reversed.
unfoldable pub lower_behind : Lowering → Str → Str → Str
lower_behind wide before [] = []
lower_behind wide before (c ∷ s) = lower_char wide before c s ++ lower_behind wide (c ∷ before) s

unfoldable pub to_lowercase : Lowering → Str → Str
unfolding lower_behind
to_lowercase wide s = lower_behind wide [] s

-- The host test: exact, or by suffix where the rule begins with `*.`.
unfoldable pub host_ok : Str → Str → Bool
host_ok rule_host req_host =
    if starts_with (codes "*.") rule_host
    then ends_with (drop 1 rule_host) req_host
    else str_eq rule_host req_host

unfoldable pub matches : Lowering → IngressRule → Str → Str → Bool
unfolding host_ok
matches wide r host path =
    if is_empty r.hostname
    then true
    else let rule_host = to_lowercase wide r.hostname in
      let req_host = to_lowercase wide (before b':' host) in
      if not (host_ok rule_host req_host) then false else is_empty r.path || starts_with r.path path

-- The port-like number is a u16; a service of another form has no status.
unfoldable pub status_code : IngressRule → Option ℕ
status_code r = and_then (strip_prefix (codes "http_status:") r.service) (parse_uint (2 ^ 16))
