-- ===== src/CapnpRpc/Bytes/Laws.antt =====
-- Words and their bytes are two views of one memory, and a write changes only what it covers.
use argo_rust.Base.{
  ℕ, zero, suc, ◌+◌, ◌-◌, ◌*◌, ◌/◌, ◌%◌, ◌^◌, ◌<◌, ◌≤◌, ◌≡◌, refl, sym, ap, ap₂, ◌∙◌, List, [], ◌∷◌,
  ◌++◌, Option, none, some, All, All-append, length, length-append, length-replicate, replicate,
  arith, append-nil,
}
use mathlib.Core.Option
use native.Mathlib.Nat.{pow-suc}
use argo_rust.CapnpRpc.Bytes.{
  Bytes, IsByte, IsWord, to_le, from_le, as_bytes, words_of, store, copy_from_slice, write_at,
}

pub from_le-to_le : (n w : ℕ) → w < 256 ^ n → from_le (to_le n w) ≡ w
unfolding from_le to_le
from_le-to_le zero w h = omega arith
from_le-to_le (suc n) w h = omega (arith, from_le-to_le n (w / 256) (omega (arith, pow-suc 256 n)))

pub length-to_le : (n w : ℕ) → length (to_le n w) ≡ n
unfolding to_le
length-to_le zero w = refl
length-to_le (suc n) w = ap suc (length-to_le n (w / 256))

pub to_le-IsByte : (n w : ℕ) → All IsByte (to_le n w)
unfolding to_le
to_le-IsByte zero w = tt
to_le-IsByte (suc n) w = (omega arith, to_le-IsByte n (w / 256))

pub words_of-word :
    (w : ℕ) (rest : Bytes) → IsWord w → words_of (to_le 8 w ++ rest) ≡ w ∷ words_of rest
unfolding words_of to_le
words_of-word w rest h = ap (λ (v : ℕ). v ∷ words_of rest) (omega arith)

pub words_of-append :
    (ws : List ℕ) (rest : Bytes)
    → All IsWord ws
    → words_of (as_bytes ws ++ rest) ≡ ws ++ words_of rest
unfolding as_bytes
words_of-append [] rest h = refl
words_of-append (w ∷ ws) rest (p, h) =
    words_of-word w (as_bytes ws ++ rest) p ∙ ap (λ (r : List ℕ). w ∷ r) (words_of-append ws rest h)

pub words_of-as_bytes : (ws : List ℕ) → All IsWord ws → words_of (as_bytes ws) ≡ ws
unfolding words_of
words_of-as_bytes ws h =
    ap words_of (sym (append-nil (as_bytes ws))) ∙ words_of-append ws [] h ∙ append-nil ws

pub length-as_bytes : (ws : List ℕ) → length (as_bytes ws) ≡ length ws * 8
unfolding as_bytes
length-as_bytes [] = omega arith
length-as_bytes (w ∷ ws) = omega (arith, length-as_bytes ws)

pub as_bytes-append : (xs ys : List ℕ) → as_bytes (xs ++ ys) ≡ as_bytes xs ++ as_bytes ys
unfolding as_bytes
as_bytes-append [] ys = refl
as_bytes-append (x ∷ xs) ys = rw (as_bytes-append xs ys)

replicate-eight :
    (n : ℕ) {A : Type 0} (a : A) → replicate (suc n * 8) a ≡ replicate 8 a ++ replicate (n * 8) a
replicate-eight n a =
    let count : suc n * 8 ≡ suc (suc (suc (suc (suc (suc (suc (suc (n * 8)))))))) = omega arith in
    rw count

pub as_bytes-zeros : (n : ℕ) → as_bytes (replicate n 0) ≡ replicate (n * 8) 0
unfolding as_bytes
as_bytes-zeros zero = refl
as_bytes-zeros (suc n) = rw (replicate-eight n, as_bytes-zeros n)

map_same {ℓ} : {A : Type ℓ} (o : Option A) → Option.map (λ r. r) o ≡ o
map_same none = refl
map_same (some a) = refl

-- A copy behind `pre` leaves `pre` alone.
pub copy_from_slice-append {ℓ} :
    {A : Type ℓ} (pre dst src : List A) (i : ℕ)
    → copy_from_slice (pre ++ dst) (length pre + i) src
      ≡ Option.map (λ r. pre ++ r) (copy_from_slice dst i src)
unfolding copy_from_slice
copy_from_slice-append [] dst src i =
    let start : 0 + i ≡ i = omega arith in rw start (sym (map_same (copy_from_slice dst i src)))
copy_from_slice-append (x ∷ pre) dst src i =
    let start : suc (length pre) + i ≡ suc (length pre + i) = omega arith in
    rw (start, copy_from_slice-append pre dst src i)
      (Option.map-map (λ r. x ∷ r) (λ r. pre ++ r) (copy_from_slice dst i src))

pub copy_from_slice_zeros :
    (m : ℕ) (src : Bytes)
    → length src ≤ m
    → copy_from_slice (replicate m 0) 0 src ≡ some (src ++ replicate (m - length src) 0)
unfolding copy_from_slice
copy_from_slice_zeros m [] h = let whole : m - 0 ≡ m = omega arith in rw whole
copy_from_slice_zeros zero (x ∷ src) h = absurd (omega arith)
copy_from_slice_zeros (suc m) (x ∷ src) h =
    let left : suc m - suc (length src) ≡ m - length src = omega arith in
    rw (left, copy_from_slice_zeros m src (omega arith))

-- The words that hold `src`, padded with zero bytes to `n` words.
abbrev pub padded : ℕ → Bytes → List ℕ
padded n src = words_of (src ++ replicate (n * 8 - length src) 0)

copy_zeros_end :
    (ws : List ℕ) (n : ℕ) (src : Bytes)
    → length src ≤ n * 8
    → copy_from_slice (as_bytes (ws ++ replicate n 0)) (length ws * 8) src
      ≡ some (as_bytes ws ++ (src ++ replicate (n * 8 - length src) 0))
copy_zeros_end ws n src fits =
    let start : length ws * 8 ≡ length (as_bytes ws) + 0 = omega (arith, length-as_bytes ws) in
    rw (
      as_bytes-append ws (replicate n 0),
      as_bytes-zeros n,
      start,
      copy_from_slice-append (as_bytes ws) (replicate (n * 8) 0) src 0,
      copy_from_slice_zeros (n * 8) src fits,
    )

-- Filling the zero words at the end of the memory.
pub write_at_end :
    (ws : List ℕ) (n : ℕ) (src : Bytes)
    → All IsWord ws
    → length src ≤ n * 8
    → write_at (ws ++ replicate n 0) (length ws * 8) src ≡ some (ws ++ padded n src)
unfolding write_at
write_at_end ws n src h fits =
    ap (λ (o : Option Bytes). Option.map words_of o) (copy_zeros_end ws n src fits)
    ∙ ap (λ (r : List ℕ). some r) (words_of-append ws (src ++ replicate (n * 8 - length src) 0) h)

copy_from_slice-append_left {ℓ} :
    {A : Type ℓ} (dst post src : List A) (i : ℕ) {r : List A}
    → copy_from_slice dst i src ≡ some r
    → copy_from_slice (dst ++ post) i src ≡ some (r ++ post)
unfolding copy_from_slice
copy_from_slice-append_left dst post [] zero e = ground arith
copy_from_slice-append_left [] post (x ∷ src) zero e = cc
copy_from_slice-append_left (y ∷ dst) post (x ∷ src) zero e =
    let (t, q, same) = (Option.map-eq-some_iff _ _).0 e in
    rw (← same, copy_from_slice-append_left dst post src zero q)
copy_from_slice-append_left [] post src (suc i) e = cc
copy_from_slice-append_left (y ∷ dst) post src (suc i) e =
    let (t, q, same) = (Option.map-eq-some_iff _ _).0 e in
    rw (← same, copy_from_slice-append_left dst post src i q)

-- A write inside one word changes that word only.
pub write_at_word :
    (pre : List ℕ) (w : ℕ) (post : List ℕ) (byte : ℕ) (src : Bytes) {a b c d e f g h : ℕ}
    → All IsWord pre
    → All IsWord post
    → copy_from_slice (to_le 8 w) byte src ≡ some (a ∷ b ∷ c ∷ d ∷ e ∷ f ∷ g ∷ h ∷ [])
    → write_at (pre ++ w ∷ post) (length pre * 8 + byte) src
      ≡ some (pre ++ from_le (a ∷ b ∷ c ∷ d ∷ e ∷ f ∷ g ∷ h ∷ []) ∷ post)
unfolding write_at
write_at_word pre w post byte src {a} {b} {c} {d} {e} {f} {g} {h} hpre hpost q =
    ap (λ (o : Option Bytes). Option.map words_of o) copied
    ∙ ap (λ (r : List ℕ). some r) (words_of-append pre _ hpre)
    ∙ ap (λ (r : List ℕ). some (pre ++ from_le (a ∷ b ∷ c ∷ d ∷ e ∷ f ∷ g ∷ h ∷ []) ∷ r))
        (words_of-as_bytes post hpost)
  where
    copied :
        copy_from_slice (as_bytes (pre ++ w ∷ post)) (length pre * 8 + byte) src
        ≡ some (as_bytes pre ++ (a ∷ b ∷ c ∷ d ∷ e ∷ f ∷ g ∷ h ∷ as_bytes post))
    copied =
        let start : length pre * 8 + byte ≡ length (as_bytes pre) + byte =
          omega (arith, length-as_bytes pre) in
        rw (
          as_bytes-append pre (w ∷ post),
          start,
          copy_from_slice-append (as_bytes pre) (as_bytes (w ∷ post)) src byte,
          copy_from_slice-append_left (to_le 8 w) (as_bytes post) src byte q,
        )

pub store-append {ℓ} :
    {A : Type ℓ} (pre : List A) (w : A) (post : List A) (v : A)
    → store (pre ++ w ∷ post) (length pre) v ≡ some (pre ++ v ∷ post)
unfolding store
store-append [] w post v = refl
store-append (x ∷ pre) w post v = rw (store-append pre w post v)

from_le-lt : (bs : Bytes) → All IsByte bs → from_le bs < 256 ^ length bs
unfolding from_le
from_le-lt [] h = omega arith
from_le-lt (b ∷ bs) (p, h) = omega (arith, from_le-lt bs h, pow-suc 256 (length bs))

-- Eight bytes make a word.
pub words_of-IsWord : (bs : Bytes) → All IsByte bs → All IsWord (words_of bs)
unfolding words_of
words_of-IsWord (a ∷ b ∷ c ∷ d ∷ e ∷ f ∷ g ∷ h ∷ rest)
      (pa, (pb, (pc, (pd, (pe, (pf, (pg, (ph, hs)))))))) =
    (omega arith, words_of-IsWord rest hs)
words_of-IsWord _ hs = tt

pub to_le-from_le : (bs : Bytes) → All IsByte bs → to_le (length bs) (from_le bs) ≡ bs
unfolding to_le from_le
to_le-from_le [] h = refl
to_le-from_le (b ∷ bs) (p, h) =
    let low : (b + 256 * from_le bs) % 256 ≡ b = omega arith in
    let high : (b + 256 * from_le bs) / 256 ≡ from_le bs = omega arith in
    rw (low, high, to_le-from_le bs h)

-- Whole groups of eight bytes survive the way through words.
pub as_bytes-words_of :
    (n : ℕ) (bs : Bytes) → length bs ≡ n * 8 → All IsByte bs → as_bytes (words_of bs) ≡ bs
unfolding as_bytes words_of
as_bytes-words_of zero [] e h = refl
as_bytes-words_of zero (a ∷ bs) e h = absurd (omega arith)
as_bytes-words_of (suc n) (a ∷ b ∷ c ∷ d ∷ x ∷ f ∷ g ∷ i ∷ bs) e
      (pa, (pb, (pc, (pd, (px, (pf, (pg, (pi, h)))))))) =
    ap₂ (λ (l r : Bytes). l ++ r)
      (to_le-from_le (a ∷ b ∷ c ∷ d ∷ x ∷ f ∷ g ∷ i ∷ [])
        (pa, (pb, (pc, (pd, (px, (pf, (pg, (pi, tt)))))))))
      (as_bytes-words_of n bs (omega arith) h)
as_bytes-words_of (suc n) _ e h = absurd (omega arith)

zeros-IsByte : (m : ℕ) → All IsByte (replicate m 0)
zeros-IsByte zero = tt
zeros-IsByte (suc m) = (omega arith, zeros-IsByte m)

padding-IsByte :
    (n : ℕ) (src : Bytes) → All IsByte src → All IsByte (src ++ replicate (n * 8 - length src) 0)
padding-IsByte n src h =
    All-append IsByte src (replicate (n * 8 - length src) 0) h (zeros-IsByte (n * 8 - length src))

pub padded-IsWord : (n : ℕ) (src : Bytes) → All IsByte src → All IsWord (padded n src)
padded-IsWord n src h = words_of-IsWord _ (padding-IsByte n src h)

pub as_bytes-padded :
    (n : ℕ) (src : Bytes)
    → length src ≤ n * 8
    → All IsByte src
    → as_bytes (padded n src) ≡ src ++ replicate (n * 8 - length src) 0
as_bytes-padded n src fits h =
    as_bytes-words_of n _
      (omega (
        arith,
        length-append {0} src (replicate (n * 8 - length src) 0),
        length-replicate {A = ℕ} (n * 8 - length src) 0,
      ))
      (padding-IsByte n src h)

pub length-padded :
    (n : ℕ) (src : Bytes) → length src ≤ n * 8 → All IsByte src → length (padded n src) ≡ n
length-padded n src fits h = omega (
  arith,
  ap (λ (r : Bytes). length r) (as_bytes-padded n src fits h),
  length-as_bytes (padded n src),
  length-append {0} src (replicate (n * 8 - length src) 0),
  length-replicate {A = ℕ} (n * 8 - length src) 0,
)
