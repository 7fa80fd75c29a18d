-- ===== src/Config/Token.antt =====
-- `TokenCreds` of src/config.rs: the tunnel token and its secret.
use argo_rust.Base.{
  ℕ, Bool, ◌&&◌, ◌||◌, List, [], ◌∷◌, Option, Str, is_empty, length, Result, ok, ◌>>=◌, ◌>>◌, ok_or,
  or_else, ensure, not, ltb, leb, ◌==◌, if◌then◌else◌,
}

-- `{"a": account tag, "s": tunnel secret, "t": tunnel UUID}`.
pub record TokenCreds : Type 0 where
  pub a : Str
  pub s : Str
  pub t : Str

-- The three engines of the base64 crate that the code names, and `serde_json::from_slice`.
pub record Codecs : Type 0 where
  pub standard : Str → Option (List ℕ)
  pub url_safe : Str → Option (List ℕ)
  pub url_safe_no_pad : Str → Option (List ℕ)
  pub from_slice : List ℕ → Option TokenCreds

pub data TokenError : Type 0 where
  bad_base64 bad_json secret_too_short : TokenError

-- `char::is_whitespace`.
abbrev pub is_whitespace : ℕ → Bool
is_whitespace c =
    (leb 9 c && leb c 13)
    || c == 0x20
    || c == 0x85
    || c == 0xa0
    || c == 0x1680
    || (leb 0x2000 c && leb c 0x200a)
    || c == 0x2028
    || c == 0x2029
    || c == 0x202f
    || c == 0x205f
    || c == 0x3000

unfoldable pub trim_start : Str → Str
trim_start [] = []
trim_start (c ∷ s) = if is_whitespace c then trim_start s else c ∷ s

unfoldable pub trim_end : Str → Str
trim_end [] = []
trim_end (c ∷ s) =
    let rest = trim_end s in if is_whitespace c && is_empty rest then [] else c ∷ rest

unfoldable pub trim : Str → Str
unfolding trim_start trim_end
trim s = trim_end (trim_start s)

module _ (lib : Codecs) where
  -- The `or_else` chain of `from_token`.
  unfoldable pub decode_token : Str → Result TokenError (List ℕ)
  decode_token s =
      or_else (ok_or (lib.standard s) bad_base64)
        (or_else (ok_or (lib.url_safe s) bad_base64) (ok_or (lib.url_safe_no_pad s) bad_base64))

  unfoldable pub from_token : Str → Result TokenError TokenCreds
  from_token token = do decoded ← decode_token (trim token); ok_or (lib.from_slice decoded) bad_json

  unfoldable pub secret_bytes : TokenCreds → Result TokenError (List ℕ)
  secret_bytes c = do
    bytes ←
        or_else (ok_or (lib.standard c.s) bad_base64) (ok_or (lib.url_safe_no_pad c.s) bad_base64)
    ensure (not (ltb (length bytes) 32)) secret_too_short
    ok bytes
