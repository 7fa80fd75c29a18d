-- ===== src/Config/Credentials.antt =====
-- The token and the secret of src/config.rs: which texts are accepted, and what they give.
use argo_rust.Base.{
  ℕ, ◌≤◌, ◌≡◌, ◌↔◌, ◌⊎◌, inl, inr, refl, ap, ◌∙◌, true, List, [], ◌∷◌, ◌++◌, Option, none, some,
  arith, Str, length, ok, All, Bool-cases, or_else, ok_or, ok_or-eq-ok, bind-eq-ok,
}
use argo_rust.Config.Token.{
  TokenCreds, Codecs, bad_base64, is_whitespace, trim_start, trim_end, bad_json, trim, decode_token,
  from_token, secret_bytes,
}

abbrev pub IsBlank : Str → Type 0
IsBlank s = All (λ c. is_whitespace c ≡ true) s

trim_start_blank : (pad s : Str) → IsBlank pad → trim_start (pad ++ s) ≡ trim_start s
unfolding trim_start
trim_start_blank [] s h = refl
trim_start_blank (c ∷ pad) s (p, h) = rw p (trim_start_blank pad s h)

trim_end_blank : (pad : Str) → IsBlank pad → trim_end pad ≡ []
unfolding trim_end
trim_end_blank [] h = refl
trim_end_blank (c ∷ pad) (p, h) = rw (p, trim_end_blank pad h)

trim_end-append_blank : (s pad : Str) → IsBlank pad → trim_end (s ++ pad) ≡ trim_end s
unfolding trim_end
trim_end-append_blank [] pad h = trim_end_blank pad h
trim_end-append_blank (c ∷ s) pad h = rw (trim_end-append_blank s pad h)

trim-append_blank : (s pad : Str) → IsBlank pad → trim (s ++ pad) ≡ trim s
unfolding trim trim_start
trim-append_blank [] pad h = rw (trim_start_all pad h)
  where
    trim_start_all : (p : Str) → IsBlank p → trim_start p ≡ []
    trim_start_all [] k = refl
    trim_start_all (c ∷ p) (q, k) = rw q (trim_start_all p k)
trim-append_blank (c ∷ s) pad h = elim (Bool-cases (is_whitespace c)) [
  | inl blank ↦ rw blank (trim-append_blank s pad h)
  | inr solid ↦ rw solid (trim_end-append_blank (c ∷ s) pad h)
]

trim-blank_append : (pad s : Str) → IsBlank pad → trim (pad ++ s) ≡ trim s
unfolding trim
trim-blank_append pad s h = ap trim_end (trim_start_blank pad s h)

trim_padded :
    (front s back : Str) → IsBlank front → IsBlank back → trim (front ++ (s ++ back)) ≡ trim s
trim_padded front s back h k = trim-blank_append front (s ++ back) h ∙ trim-append_blank s back k

module _ (lib : Codecs) where
  -- White space around the token, such as the newline of a file, changes nothing.
  pub from_token_padded :
      (front token back : Str)
      → IsBlank front
      → IsBlank back
      → from_token lib (front ++ (token ++ back)) ≡ from_token lib token
  unfolding from_token
  from_token_padded front token back h k = rw (trim_padded front token back h k)

  -- The first of the three base64 engines that reads the text.
  pub data FirstDecoded (s : Str) (d : List ℕ) : Type 0 where
    by_standard : lib.standard s ≡ some d → FirstDecoded s d
    by_url_safe : lib.standard s ≡ none → lib.url_safe s ≡ some d → FirstDecoded s d
    by_no_pad :
        lib.standard s ≡ none
        → lib.url_safe s ≡ none
        → lib.url_safe_no_pad s ≡ some d
        → FirstDecoded s d

  decode_token_complete : {s : Str} {d : List ℕ} → FirstDecoded s d → decode_token lib s ≡ ok d
  unfolding decode_token
  decode_token_complete (by_standard p) = rw p
  decode_token_complete (by_url_safe p q) = rw (p, q)
  decode_token_complete (by_no_pad p q r) = rw (p, q, r)

  decode_token_sound : (s : Str) (d : List ℕ) → decode_token lib s ≡ ok d → FirstDecoded s d
  unfolding decode_token
  decode_token_sound s d e =
      go (lib.standard s) (lib.url_safe s) (lib.url_safe_no_pad s) refl refl refl e
    where
      go :
          (p q r : Option (List ℕ))
          → lib.standard s ≡ p
          → lib.url_safe s ≡ q
          → lib.url_safe_no_pad s ≡ r
          → or_else (ok_or p bad_base64) (or_else (ok_or q bad_base64) (ok_or r bad_base64)) ≡ ok d
          → FirstDecoded s d
      go (some x) q r ep eq er h = by_standard (ground arith)
      go none (some x) r ep eq er h = by_url_safe ep (ground arith)
      go none none (some x) ep eq er h = by_no_pad ep eq (ground arith)
      go none none none ep eq er h = cc

  -- Credentials are read exactly when the JSON reader accepts what the first engine that reads the
  -- trimmed token decodes.
  pub from_token_iff :
      (token : Str) (c : TokenCreds)
      → (from_token lib token ≡ ok c)
        ↔ ((d : List ℕ) × FirstDecoded (trim token) d × (lib.from_slice d ≡ some c))
  unfolding from_token
  from_token_iff token c = (
    λ e.
        let (d, decoded, parsed) =
          bind-eq-ok (decode_token lib (trim token)) (λ d. ok_or (lib.from_slice d) bad_json) e in
        (
          d,
          decode_token_sound (trim token) d decoded,
          ok_or-eq-ok (lib.from_slice d) bad_json parsed,
        ),
    λ (d, first, e). rw (decode_token_complete first, e),
  )

  -- A secret is handed out only if it has 32 bytes or more, as one of the two engines decodes it.
  pub secret_bytes_sound :
      (c : TokenCreds) (bytes : List ℕ)
      → secret_bytes lib c ≡ ok bytes
      → (32 ≤ length bytes)
        × ((lib.standard c.s ≡ some bytes)
            ⊎ ((lib.standard c.s ≡ none) × (lib.url_safe_no_pad c.s ≡ some bytes)))
  unfolding secret_bytes
  secret_bytes_sound c bytes e = ground arith
