-- ===== src/Config/Matching.antt =====
-- What `IngressRule::matches` and `status_code` accept.
use argo_rust.Base.{
  ℕ, ◌^◌, ◌<◌, ◌≡◌, ◌≢◌, ◌↔◌, inl, inr, refl, ap, ◌∙◌, true, false, not, ◌||◌, nil_cases, [], ◌∷◌,
  ◌++◌, some, arith, Str, codes, is_empty, str_eq_iff, starts_with, starts_with_iff, ends_with_iff,
  before, before-append, before_all, Lacks, strip_prefix, strip_prefix-append, and_then,
  strip_prefix_iff, decimal, parse_uint, parse_uint-decimal, parse_uint-lt, Bool-cases,
  Option-cases, if◌then◌else◌,
}
use argo_rust.Config.Rule.{IngressRule, Lowering, to_lowercase, host_ok, matches, status_code}

-- The host of a rule, lower case, covers the host of a request: the same name, or any text in
-- front of the part behind the `*`.
pub data CoversHost : Str → Str → Type 0 where
  exact : (h : Str) → starts_with (codes "*.") h ≡ false → CoversHost h h
  wildcard :
      (domain front : Str) → CoversHost (codes "*." ++ domain) (front ++ (codes "." ++ domain))

host_ok_sound : (r h : Str) → host_ok r h ≡ true → CoversHost r h
unfolding host_ok
host_ok_sound r h e = elim (Bool-cases (starts_with (codes "*.") r)) [
  | inl star ↦
      let (domain, shape) = (starts_with_iff (codes "*.") r).0 star in
      let suffix = (rw (star, shape) at e) in
      let (front, tail) = (ends_with_iff (codes "." ++ domain) h).0 suffix in
      rw (shape, tail) (wildcard domain front)
  | inr plain ↦ let same = (str_eq_iff r h).0 (rw plain at e) in rw (← same) (exact r plain)
]

host_ok_complete : {r h : Str} → CoversHost r h → host_ok r h ≡ true
unfolding host_ok
host_ok_complete (exact h plain) = rw plain ((str_eq_iff h h).1 refl)
host_ok_complete (wildcard d front) =
    rw ((starts_with_iff (codes "*.") (codes "*." ++ d)).1 (d, refl))
      ((ends_with_iff (codes "." ++ d) (front ++ (codes "." ++ d))).1 (front, refl))

-- A request is covered by a rule with no hostname, whatever the rule's path, or by one whose
-- hostname covers the host without its port and whose path begins the request's path.
pub data Covers (wide : Lowering) (r : IngressRule) (host path : Str) : Type 0 where
  catch_all : r.hostname ≡ [] → Covers wide r host path
  by_name :
      r.hostname ≢ []
      → CoversHost (to_lowercase wide r.hostname) (to_lowercase wide (before b':' host))
      → (rest : Str) → path ≡ r.path ++ rest
      → Covers wide r host path

module _ (wide : Lowering) (r : IngressRule) (host path : Str) where
  matches_catch_all : r.hostname ≡ [] → matches wide r host path ≡ true
  unfolding matches
  matches_catch_all e = rw e

  matches_by_name :
      r.hostname ≢ []
      → matches wide r host path ≡ (
          if not (host_ok (to_lowercase wide r.hostname) (to_lowercase wide (before b':' host)))
          then false
          else is_empty r.path || starts_with r.path path)
  unfolding matches
  matches_by_name named = ground arith

  path_ok_sound :
      (is_empty r.path || starts_with r.path path) ≡ true → (rest : Str) × (path ≡ r.path ++ rest)
  path_ok_sound e = go r.path e
    where
      go : (p : Str) → (is_empty p || starts_with p path) ≡ true → (rest : Str) × (path ≡ p ++ rest)
      go [] q = (path, refl)
      go (c ∷ p) q = (starts_with_iff (c ∷ p) path).0 q

  path_ok_complete :
      (rest : Str) → path ≡ r.path ++ rest → (is_empty r.path || starts_with r.path path) ≡ true
  path_ok_complete rest e = go r.path e
    where
      go : (p : Str) → path ≡ p ++ rest → (is_empty p || starts_with p path) ≡ true
      go [] q = refl
      go (c ∷ p) q = (starts_with_iff (c ∷ p) path).1 (rest, q)

  matches_sound : matches wide r host path ≡ true → Covers wide r host path
  matches_sound e = elim (nil_cases r.hostname) [
    | inl none_given ↦ catch_all none_given
    | inr named ↦
        elim (Bool-cases
          (host_ok (to_lowercase wide r.hostname) (to_lowercase wide (before b':' host)))) [
            | inl covered ↦
                let (rest, begins) = path_ok_sound (rw (matches_by_name named, covered) at e) in
                by_name named (host_ok_sound _ _ covered) rest begins
            | inr other ↦ let wrong = (rw (matches_by_name named, other) at e) in cc wrong
          ]
  ]

  matches_complete : Covers wide r host path → matches wide r host path ≡ true
  matches_complete (catch_all e) = matches_catch_all e
  matches_complete (by_name named covered rest e) =
      rw (matches_by_name named, host_ok_complete covered) (path_ok_complete rest e)

  -- `matches` accepts exactly the requests that the rule covers.
  pub matches_iff : (matches wide r host path ≡ true) ↔ Covers wide r host path
  matches_iff = (matches_sound, matches_complete)

-- A rule with a hostname and a path that does not begin with a slash serves no request at all:
-- the path of a request begins with one.
pub matches_relative_path :
    (wide : Lowering) (r : IngressRule) (host path : Str) (c : ℕ) (rest : Str)
    → r.hostname ≢ []
    → r.path ≡ c ∷ rest
    → c ≢ b'/'
    → matches wide r host (b'/' ∷ path) ≡ false
matches_relative_path wide r host path c rest named begins other =
    elim (Bool-cases (matches wide r host (b'/' ∷ path))) [
      | inl yes_it_does ↦ absurd (refuse (matches_sound wide r host (b'/' ∷ path) yes_it_does))
      | inr n ↦ n
    ]
  where
    refuse : Covers wide r host (b'/' ∷ path) → ⊥
    refuse (catch_all e) = named e
    refuse (by_name _ _ more e) = other (ground (arith, (rw begins at e)))

-- The port of the `Host` header plays no part.
pub matches_port :
    (wide : Lowering) (r : IngressRule) (host port path : Str)
    → Lacks b':' host
    → matches wide r (host ++ b':' ∷ port) path ≡ matches wide r host path
unfolding matches
matches_port wide r host port path h = rw (before-append b':' host port h, before_all b':' host h)

-- A service `http_status:` with a decimal number below 2^16 has that status.
pub status_code-decimal :
    (r : IngressRule) (n : ℕ)
    → r.service ≡ codes "http_status:" ++ decimal n
    → n < 2 ^ 16
    → status_code r ≡ some n
unfolding status_code
status_code-decimal r n e h =
    ap (λ s. and_then (strip_prefix (codes "http_status:") s) (parse_uint (2 ^ 16))) e
    ∙ ap (λ o. and_then o (parse_uint (2 ^ 16)))
        (strip_prefix-append (codes "http_status:") (decimal n))
    ∙ parse_uint-decimal (2 ^ 16) n h

-- A status comes from a service with that prefix only, and fits 16 bits.
pub status_code_sound :
    (r : IngressRule) (n : ℕ)
    → status_code r ≡ some n
    → (s : Str) × (r.service ≡ codes "http_status:" ++ s) × (n < 2 ^ 16)
unfolding status_code
status_code_sound r n e = elim (Option-cases (strip_prefix (codes "http_status:") r.service)) [
  | inl absent ↦ let wrong = (rw absent at e) in cc wrong
  | inr (s, found) ↦ (
    s,
    (strip_prefix_iff (codes "http_status:") r.service s).0 found,
    parse_uint-lt (2 ^ 16) s (omega arith) (rw found at e),
  )
]
