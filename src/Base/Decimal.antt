-- ===== src/Base/Decimal.antt =====
-- `format!("{}", n)` and `str::parse` for unsigned integers.
use Prim.Native.Nat.{ℕ, zero, suc, ◌+◌, ◌-◌, ◌*◌, ◌/◌, ◌%◌, ◌<◌}
use mathlib.Core.Path.{◌≡◌, refl, ◌∙◌}
use mathlib.Core.Logic.{inl, inr}
use mathlib.Core.Bool.{Bool, false, ◌&&◌}
use mathlib.Core.Option.{Option, none, some}
use mathlib.Core.List.{[], ◌∷◌, ◌++◌, append_assoc, append-nil}
use native.Mathlib.Omega.{arith}
use argo_rust.Base.Tests.{ltb, leb, ◌==◌, if◌then◌else◌, Bool-cases}
use argo_rust.Base.Text.{Str}
use argo_rust.Base.Fallible.{All, All-append}

-- Decimal digits, most significant first. A number below ten to the fuel has fewer digits.
decimal_loop : ℕ → ℕ → Str
decimal_loop zero n = []
decimal_loop (suc fuel) n =
    let more = decimal_loop fuel (n / 10) ++ (48 + n % 10) ∷ [] in
    if ltb n 10 then (48 + n) ∷ [] else more

unfoldable pub decimal : ℕ → Str
unfolding decimal_loop
decimal n = decimal_loop (suc n) n

abbrev pub is_digit : ℕ → Bool
is_digit c = leb b'0' c && leb c b'9'

-- The digit loop of `from_str`, which stops at a character that is no digit and on overflow.
unfoldable pub read_digits : ℕ → ℕ → Str → Option ℕ
read_digits limit acc [] = some acc
read_digits limit acc (c ∷ s) =
    let acc' = acc * 10 + (c - 48) in
    let more = read_digits limit acc' s in
    if is_digit c then (if ltb acc' limit then more else none) else none

-- `s.parse::<uN>()` with `limit = 2^N`: an optional `+`, then at least one digit.
unfoldable pub parse_uint : ℕ → Str → Option ℕ
unfolding read_digits
parse_uint limit [] = none
parse_uint limit (c ∷ []) = read_digits limit 0 (c ∷ [])
parse_uint limit (c ∷ d ∷ s) = read_digits limit 0 (if c == b'+' then d ∷ s else c ∷ d ∷ s)

pub read_digits-lt :
    (limit acc : ℕ) (s : Str) {n : ℕ} → acc < limit → read_digits limit acc s ≡ some n → n < limit
unfolding read_digits
read_digits-lt limit acc [] h e = ground arith
read_digits-lt limit acc (c ∷ s) {n} h e =
    ground (arith, read_digits-lt limit (acc * 10 + (c - 48)) s {n = n})

-- A parsed number fits its type.
pub parse_uint-lt :
    (limit : ℕ) (s : Str) {n : ℕ} → 0 < limit → parse_uint limit s ≡ some n → n < limit
unfolding parse_uint
parse_uint-lt limit [] h e = cc
parse_uint-lt limit (c ∷ []) h e = read_digits-lt limit 0 (c ∷ []) h e
parse_uint-lt limit (c ∷ d ∷ s) h e =
    read_digits-lt limit 0 (if c == b'+' then d ∷ s else c ∷ d ∷ s) h e

read_digit :
    (limit acc d : ℕ) (t : Str)
    → d < 10
    → acc * 10 + d < limit
    → read_digits limit acc ((48 + d) ∷ t) ≡ read_digits limit (acc * 10 + d) t
unfolding read_digits
read_digit limit acc d t h k = ground arith

read_digits-decimal_loop :
    (fuel n limit : ℕ) (t : Str)
    → n < fuel
    → n < limit
    → read_digits limit 0 (decimal_loop fuel n ++ t) ≡ read_digits limit n t
unfolding decimal_loop
read_digits-decimal_loop zero n limit t h k = absurd (omega arith)
read_digits-decimal_loop (suc fuel) n limit t h k = elim (Bool-cases (ltb n 10)) [
  | inl small ↦ rw small (ground (arith, read_digit limit 0 n t))
  | inr large ↦
      rw (large, append_assoc)
        (ground (
          arith,
          read_digits-decimal_loop fuel (n / 10) limit ((48 + n % 10) ∷ t),
          read_digit limit (n / 10) (n % 10) t,
        ))
]

-- A text that begins with something other than a sign.
abbrev StartsPlain : Str → Type 0
StartsPlain s = (d : ℕ) × (r : Str) × (s ≡ d ∷ r) × ((d == b'+') ≡ false)

decimal_loop_head : (fuel n : ℕ) (t : Str) → StartsPlain (decimal_loop (suc fuel) n ++ t)
unfolding decimal_loop
decimal_loop_head zero n t = elim (Bool-cases (ltb n 10)) [
  | inl small ↦ rw small (48 + n, t, refl, ground arith)
  | inr large ↦ rw large (48 + n % 10, t, refl, ground arith)
]
decimal_loop_head (suc fuel) n t = elim (Bool-cases (ltb n 10)) [
  | inl small ↦ rw small (48 + n, t, refl, ground arith)
  | inr large ↦ rw (large, append_assoc) (decimal_loop_head fuel (n / 10) ((48 + n % 10) ∷ t))
]

parse_uint_plain :
    (limit d : ℕ) (r : Str)
    → (d == b'+') ≡ false
    → parse_uint limit (d ∷ r) ≡ read_digits limit 0 (d ∷ r)
unfolding parse_uint
parse_uint_plain limit d [] h = refl
parse_uint_plain limit d (e ∷ r) h = rw h

-- Parsing what was printed gives the number back, if it fits the type.
pub parse_uint-decimal : (limit n : ℕ) → n < limit → parse_uint limit (decimal n) ≡ some n
unfolding decimal read_digits
parse_uint-decimal limit n h =
    let (d, r, e, plain) = decimal_loop_head n n [] in
    let digits = read_digits-decimal_loop (suc n) n limit [] (omega arith) h in
    let shape = (rw append-nil at e) in
    rw shape (parse_uint_plain limit d r plain ∙ (rw e at digits))

-- No digit is a carriage return.
pub decimal_no_return : (n : ℕ) → All (λ c. (c == 13) ≡ false) (decimal n)
unfolding decimal decimal_loop
decimal_no_return n = loop (suc n) n
  where
    loop : (fuel n : ℕ) → All (λ c. (c == 13) ≡ false) (decimal_loop fuel n)
    loop zero n = tt
    loop (suc fuel) n = elim (Bool-cases (ltb n 10)) [
      | inl small ↦ rw small (ground arith, tt)
      | inr large ↦ rw large (
          All-append (λ c. (c == 13) ≡ false) (decimal_loop fuel (n / 10)) ((48 + n % 10) ∷ [])
            (loop fuel (n / 10)) (ground arith, tt))
    ]
