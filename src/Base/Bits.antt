-- ===== src/Base/Bits.antt =====
-- `|` of disjoint fields and `&` with a mask of low bits, as sums and remainders.
use Prim.Native.Nat.{
  ℕ, zero, suc, ◌+◌, ◌-◌, ◌*◌, ◌/◌, ◌%◌, ◌^◌, ◌≤◌, ◌<◌, min, max, bit_and, bit_or, digits,
  bit_or-bitwise, bit_and-bitwise,
}
use mathlib.Core.Path.{◌≡◌, refl, ap, ap₂}
use native.Mathlib.Omega.{arith}
use native.Mathlib.Nat.{pow-suc, one-le-pow, mod-lt, div-add-mod'}

-- The digit recursion does not depend on its fuel, once that covers the first number.
module _ (base : ℕ → ℕ) (op : ℕ → ℕ → ℕ) where
  enough : (f a b : ℕ) → a ≤ f → digits base op f a b ≡ digits base op a a b
  enough f a b h = between f a a b h (omega arith)
    where
      between : (f g a b : ℕ) → a ≤ f → a ≤ g → digits base op f a b ≡ digits base op g a b
      between zero zero a b h k = refl
      between (suc f) zero zero b h k = refl
      between (suc f) zero (suc a) b h k = absurd (omega arith)
      between zero (suc g) zero b h k = refl
      between zero (suc g) (suc a) b h k = absurd (omega arith)
      between (suc f) (suc g) zero b h k = refl
      between (suc f) (suc g) (suc a) b h k =
          ap (λ (t : ℕ). t * 2 + op (suc a % 2) (b % 2))
            (between f g (suc a / 2) (b / 2) (omega arith) (omega arith))

or_zero_left : (b : ℕ) → bit_or 0 b ≡ b
or_zero_left b = bit_or-bitwise 0 b

and_zero_left : (b : ℕ) → bit_and 0 b ≡ 0
and_zero_left b = bit_and-bitwise 0 b

or_digit : (a b : ℕ) → bit_or a b ≡ bit_or (a / 2) (b / 2) * 2 + max (a % 2) (b % 2)
or_digit zero b = omega (arith, or_zero_left b, or_zero_left (b / 2))
or_digit (suc a) b = omega (
  arith,
  bit_or-bitwise (suc a) b,
  bit_or-bitwise (suc a / 2) (b / 2),
  enough (λ y. y) max a (suc a / 2) (b / 2) (omega arith),
)

and_digit : (a b : ℕ) → bit_and a b ≡ bit_and (a / 2) (b / 2) * 2 + min (a % 2) (b % 2)
and_digit zero b = omega (arith, and_zero_left b, and_zero_left (b / 2))
and_digit (suc a) b = omega (
  arith,
  bit_and-bitwise (suc a) b,
  bit_and-bitwise (suc a / 2) (b / 2),
  enough (λ y. 0) min a (suc a / 2) (b / 2) (omega arith),
)

or_zero_below : (f a : ℕ) → a ≤ f → bit_or a 0 ≡ a
or_zero_below f zero h = or_zero_left 0
or_zero_below zero (suc a) h = absurd (omega arith)
or_zero_below (suc f) (suc a) h =
    omega (arith, or_digit (suc a) 0, or_zero_below f (suc a / 2) (omega arith))

and_zero_below : (f a : ℕ) → a ≤ f → bit_and a 0 ≡ 0
and_zero_below f zero h = and_zero_left 0
and_zero_below zero (suc a) h = absurd (omega arith)
and_zero_below (suc f) (suc a) h =
    omega (arith, and_digit (suc a) 0, and_zero_below f (suc a / 2) (omega arith))

double_pow : (x k : ℕ) → x * 2 ^ suc k ≡ x * 2 ^ k * 2
double_pow x k = omega (arith, ap (λ (t : ℕ). x * t) (pow-suc 2 k))

-- `lo | (hi << k)`.
pub or_low_high : (k lo hi : ℕ) → lo < 2 ^ k → bit_or lo (hi * 2 ^ k) ≡ lo + hi * 2 ^ k
or_low_high zero zero hi h = omega (arith, or_zero_left (hi * 1))
or_low_high zero (suc lo) hi h = absurd (omega arith)
or_low_high (suc k) lo hi h =
    let half : hi * 2 ^ suc k / 2 ≡ hi * 2 ^ k = omega (arith, double_pow hi k) in
    let rest = or_low_high k (lo / 2) hi (omega (arith, pow-suc 2 k)) in
    omega (
      arith,
      or_digit lo (hi * 2 ^ suc k),
      double_pow hi k,
      ap (λ (t : ℕ). bit_or (lo / 2) t) half,
      rest,
    )

-- `(hi << k) | lo`.
pub or_high_low : (k hi lo : ℕ) → lo < 2 ^ k → bit_or (hi * 2 ^ k) lo ≡ hi * 2 ^ k + lo
or_high_low zero hi zero h = omega (arith, or_zero_below (hi * 1) (hi * 1) (omega arith))
or_high_low zero hi (suc lo) h = absurd (omega arith)
or_high_low (suc k) hi lo h =
    let half : hi * 2 ^ suc k / 2 ≡ hi * 2 ^ k = omega (arith, double_pow hi k) in
    let rest = or_high_low k hi (lo / 2) (omega (arith, pow-suc 2 k)) in
    omega (
      arith,
      or_digit (hi * 2 ^ suc k) lo,
      double_pow hi k,
      ap (λ (t : ℕ). bit_or t (lo / 2)) half,
      rest,
    )

and_fields : (k hi lo : ℕ) → lo < 2 ^ k → bit_and (hi * 2 ^ k + lo) (2 ^ k - 1) ≡ lo
and_fields zero hi zero h = and_zero_below (hi * 1 + 0) (hi * 1 + 0) (omega arith)
and_fields zero hi (suc lo) h = absurd (omega arith)
and_fields (suc k) hi lo h =
    let value : (hi * 2 ^ suc k + lo) / 2 ≡ hi * 2 ^ k + lo / 2 = omega (arith, double_pow hi k) in
    let mask : (2 ^ suc k - 1) / 2 ≡ 2 ^ k - 1 =
      omega (arith, pow-suc 2 k, one-le-pow k 2 (omega arith)) in
    let rest = and_fields k hi (lo / 2) (omega (arith, pow-suc 2 k)) in
    omega (
      arith,
      and_digit (hi * 2 ^ suc k + lo) (2 ^ suc k - 1),
      double_pow hi k,
      pow-suc 2 k,
      one-le-pow k 2 (omega arith),
      ap₂ bit_and value mask,
      rest,
    )

-- `x & (2^k - 1)`.
pub and_mask : (k x : ℕ) → bit_and x (2 ^ k - 1) ≡ x % 2 ^ k
and_mask k x =
    let pos = one-le-pow k 2 (omega arith) in
    let fields = and_fields k (x / 2 ^ k) (x % 2 ^ k) (mod-lt x pos) in
    rw (div-add-mod' x (2 ^ k)) at fields
