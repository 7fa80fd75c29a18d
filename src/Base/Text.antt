-- ===== src/Base/Text.antt =====
-- Text as the list of its code points, and the `str` methods that the program calls.
use Prim.Native.Char.{code}
use Prim.Native.String.{String}
use Prim.Native.Nat.{ℕ}
use mathlib.Core.Path.{◌≡◌, refl, sym, ap}
use mathlib.Core.Logic.{◌↔◌, ◌≢◌, ◌⊎◌, inl, inr}
use mathlib.Core.Bool.{Bool, true, false, ◌&&◌}
use mathlib.Core.Option.{Option, none, some}
use mathlib.Core.List.{List, [], ◌∷◌, ◌++◌}
use native.Mathlib.Omega.{arith}
use argo_rust.Base.Tests.{◌==◌, if◌then◌else◌, Bool-cases, ==_iff}

abbrev pub Str : Type 0
Str = List ℕ

-- The code points of a literal.
abbrev pub codes : String → Str
codes String.[] = []
codes (String.◌∷◌ c s) = code c ∷ codes s

-- `str::is_empty`.
abbrev pub is_empty {ℓ} : {A : Type ℓ} → List A → Bool
is_empty [] = true
is_empty (x ∷ xs) = false

pub nil_cases {ℓ} : {A : Type ℓ} (s : List A) → (s ≡ []) ⊎ (s ≢ [])
nil_cases [] = inl refl
nil_cases (c ∷ s) = inr (λ e. cc)

-- `==` on `str`.
unfoldable pub str_eq : Str → Str → Bool
str_eq [] [] = true
str_eq [] (d ∷ t) = false
str_eq (c ∷ s) [] = false
str_eq (c ∷ s) (d ∷ t) = (c == d) && str_eq s t

pub str_eq_iff : (s t : Str) → (str_eq s t ≡ true) ↔ (s ≡ t)
unfolding str_eq
str_eq_iff [] [] = (λ _. refl, λ _. refl)
str_eq_iff [] (d ∷ t) = (λ e. cc, λ e. cc)
str_eq_iff (c ∷ s) [] = (λ e. cc, λ e. cc)
str_eq_iff (c ∷ s) (d ∷ t) = ground (arith, str_eq_iff s t)

pub str_eq_refl : (s : Str) → str_eq s s ≡ true
str_eq_refl s = (str_eq_iff s s).1 refl

-- `str::strip_prefix`.
unfoldable pub strip_prefix : Str → Str → Option Str
strip_prefix [] s = some s
strip_prefix (p ∷ ps) [] = none
strip_prefix (p ∷ ps) (c ∷ s) = if p == c then strip_prefix ps s else none

-- `str::starts_with`, the prefix first.
unfoldable pub starts_with : Str → Str → Bool
starts_with [] s = true
starts_with (p ∷ ps) [] = false
starts_with (p ∷ ps) (c ∷ s) = (p == c) && starts_with ps s

-- `str::ends_with`, the suffix first: some tail of the text is the suffix.
unfoldable pub ends_with : Str → Str → Bool
unfolding str_eq
ends_with p [] = str_eq p []
ends_with p (c ∷ s) = if str_eq p (c ∷ s) then true else ends_with p s

-- `str::split(sep).next()`: what stands before the first separator.
unfoldable pub before : ℕ → Str → Str
before sep [] = []
before sep (c ∷ s) = if c == sep then [] else c ∷ before sep s

pub strip_prefix_iff : (p s t : Str) → (strip_prefix p s ≡ some t) ↔ (s ≡ p ++ t)
unfolding strip_prefix
strip_prefix_iff [] s t = (λ e. cc, λ e. cc)
strip_prefix_iff (p ∷ ps) [] t = (λ e. cc, λ e. cc)
strip_prefix_iff (p ∷ ps) (c ∷ s) t = ground (arith, strip_prefix_iff ps s t)

pub starts_with_iff : (p s : Str) → (starts_with p s ≡ true) ↔ ((t : Str) × (s ≡ p ++ t))
unfolding starts_with
starts_with_iff [] s = (λ _. (s, refl), λ _. refl)
starts_with_iff (p ∷ ps) [] = (λ e. cc, λ e. cc e.1)
starts_with_iff (p ∷ ps) (c ∷ s) = (
  λ e. let (t, q) = (starts_with_iff ps s).0 (ground arith) in (t, ground arith),
  λ e. ground (arith, (starts_with_iff ps s).1 (e.0, ground arith)),
)

pub ends_with_sound : (p s : Str) → ends_with p s ≡ true → (t : Str) × (s ≡ t ++ p)
unfolding ends_with
ends_with_sound p [] e = ([], sym ((str_eq_iff p []).0 e))
ends_with_sound p (c ∷ s) e = elim (Bool-cases (str_eq p (c ∷ s))) [
  | inl same ↦ ([], sym ((str_eq_iff p (c ∷ s)).0 same))
  | inr other ↦
      let (t, q) = ends_with_sound p s (rw other at e) in (c ∷ t, ap (λ (r : Str). c ∷ r) q)
]

pub ends_with-append : (t p : Str) → ends_with p (t ++ p) ≡ true
unfolding ends_with
ends_with-append [] [] = refl
ends_with-append [] (c ∷ p) = rw (str_eq_refl (c ∷ p))
ends_with-append (c ∷ t) p = elim (Bool-cases (str_eq p (c ∷ (t ++ p)))) [
  | inl same ↦ rw same
  | inr other ↦ rw other (ends_with-append t p)
]

pub ends_with_iff : (p s : Str) → (ends_with p s ≡ true) ↔ ((t : Str) × (s ≡ t ++ p))
ends_with_iff p s = (ends_with_sound p s, λ e. rw (e.1) (ends_with-append e.0 p))

-- A prefix test reads `p ++ rest` whatever follows, and `before` stops at the first separator.
pub strip_prefix-append : (p t : Str) → strip_prefix p (p ++ t) ≡ some t
strip_prefix-append p t = (strip_prefix_iff p (p ++ t) t).1 refl

abbrev pub Lacks : ℕ → Str → Type 0
Lacks sep [] = Unit {0}
Lacks sep (c ∷ s) = ((c == sep) ≡ false) × Lacks sep s

pub before-append : (sep : ℕ) (s t : Str) → Lacks sep s → before sep (s ++ sep ∷ t) ≡ s
unfolding before
before-append sep [] t h = rw ((==_iff sep sep).1 refl)
before-append sep (c ∷ s) t (p, h) = rw p (ap (λ (r : Str). c ∷ r) (before-append sep s t h))

pub before_all : (sep : ℕ) (s : Str) → Lacks sep s → before sep s ≡ s
unfolding before
before_all sep [] h = refl
before_all sep (c ∷ s) (p, h) = rw p (ap (λ (r : Str). c ∷ r) (before_all sep s h))
