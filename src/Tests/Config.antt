-- ===== src/Tests/Config.antt =====
-- The rules and the token at concrete inputs.
use argo_rust.Config.{Lowering}
use argo_rust.Base.{
  is_empty, ℕ, ◌≡◌, ◌↔◌, ◌≤◌, ◌⊎◌, refl, true, false, List, [], ◌∷◌, none, some, arith, codes, ok,
  length, str_eq, if◌then◌else◌, replicate,
}
use argo_rust.Config.{IngressRule, TokenCreds, Codecs, matches, from_token, secret_bytes, trim}
use argo_rust.Config.Matching.{Covers, matches_iff, matches_relative_path}
use argo_rust.Config.Credentials.{FirstDecoded, from_token_iff, secret_bytes_sound}

-- A locale in which no character has another lower case.
abbrev same : Lowering
same = record { lower = λ c. c ∷ []; is_final = λ before after. is_empty after }

abbrev api_rule : IngressRule
api_rule = record {
  hostname = codes "*.Example.com";
  path = codes "/api";
  service = codes "http_status:503";
}

abbrev relative_rule : IngressRule
relative_rule = record {
  hostname = codes "a.org";
  path = codes "api";
  service = codes "hello_world";
}

matches_iff_example :
    (matches same api_rule (codes "x.example.com") (codes "/api/v1") ≡ true)
    ↔ Covers same api_rule (codes "x.example.com") (codes "/api/v1")
matches_iff_example = matches_iff same api_rule (codes "x.example.com") (codes "/api/v1")

matches_relative_path_example : matches same relative_rule (codes "a.org") (codes "/api") ≡ false
matches_relative_path_example =
    matches_relative_path same relative_rule (codes "a.org") (codes "api") b'a' (codes "pi")
      (λ e. cc) refl (ground arith)

abbrev creds : TokenCreds
creds = record { a = codes "account"; s = codes "secret"; t = codes "tunnel" }

-- Engines that read two texts, and a reader of JSON that knows one.
abbrev codecs : Codecs
codecs = record {
  standard = λ s. if str_eq s (codes "secret") then some (replicate 32 7) else none;
  url_safe = λ s. if str_eq s (codes "token") then some (123 ∷ 125 ∷ []) else none;
  url_safe_no_pad = λ s. none;
  from_slice = λ bytes. some creds;
}

from_token_iff_example : (from_token codecs (codes " token") ≡ ok creds) ↔ (
    (d : List ℕ) × FirstDecoded codecs (trim (codes " token")) d
    × (codecs.from_slice d ≡ some creds))
from_token_iff_example = from_token_iff codecs (codes " token") creds

secret_of : secret_bytes codecs creds ≡ ok (replicate 32 7)
unfolding secret_bytes str_eq
secret_of = refl

secret_bytes_sound_example :
    (32 ≤ length {A = ℕ} (replicate 32 7))
    × ((codecs.standard creds.s ≡ some (replicate 32 7))
        ⊎ ((codecs.standard creds.s ≡ none)
            × (codecs.url_safe_no_pad creds.s ≡ some (replicate 32 7))))
secret_bytes_sound_example = secret_bytes_sound codecs creds (replicate 32 7) secret_of
