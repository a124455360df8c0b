-- ===== src/Base/Bits.antt =====
-- Shifts, `|` of fields that do not overlap, and `&` with a mask of low bits, as arithmetic.
use Prim.Native.Nat.{
  ℕ, zero, suc, ◌+◌, ◌-◌, ◌*◌, ◌/◌, ◌%◌, ◌^◌, ◌≤◌, ◌<◌, min, max, bit_and, bit_or, digits,
  bit_and-bitwise, bit_or-bitwise,
}
use mathlib.Core.Path.{◌≡◌, refl, ap}
use native.Mathlib.Nat.{pow-suc, one-le-pow}
use native.Mathlib.Omega.{arith}

infixl 6 ◌<<◌
abbrev pub ◌<<◌ : ℕ → ℕ → ℕ
a << k = a * 2 ^ k

-- The recursion that both operations stand for does not depend on its bound, if it is large enough.
digits_bound :
    (z : ℕ → ℕ) (f : ℕ → ℕ → ℕ) (n m a b : ℕ) → a ≤ n → a ≤ m → digits z f n a b ≡ digits z f m a b
digits_bound z f n m zero b p q = zero_bound n m
  where
    zero_bound : (n m : ℕ) → digits z f n 0 b ≡ digits z f m 0 b
    zero_bound zero zero = refl
    zero_bound zero (suc m) = refl
    zero_bound (suc n) zero = refl
    zero_bound (suc n) (suc m) = refl
digits_bound z f zero m (suc a) b p q = absurd (omega arith)
digits_bound z f (suc n) zero (suc a) b p q = absurd (omega arith)
digits_bound z f (suc n) (suc m) (suc a) b p q =
    rw (digits_bound z f n m (suc a / 2) (b / 2) (omega arith) (omega arith)) refl

or_halves : (a b : ℕ) → bit_or a b ≡ bit_or (a / 2) (b / 2) * 2 + max (a % 2) (b % 2)
or_halves zero b = simp bit_or-bitwise (omega arith)
or_halves (suc a) b = omega (
  arith,
  bit_or-bitwise (suc a) b,
  bit_or-bitwise (suc a / 2) (b / 2),
  digits_bound (λ y. y) max a (suc a / 2) (suc a / 2) (b / 2) (omega arith) (omega arith),
)

and_halves : (a b : ℕ) → bit_and a b ≡ bit_and (a / 2) (b / 2) * 2 + min (a % 2) (b % 2)
and_halves zero b = simp bit_and-bitwise (omega arith)
and_halves (suc a) b = omega (
  arith,
  bit_and-bitwise (suc a) b,
  bit_and-bitwise (suc a / 2) (b / 2),
  digits_bound (λ y. 0) min a (suc a / 2) (suc a / 2) (b / 2) (omega arith) (omega arith),
)

or_none : (n a : ℕ) → a ≤ n → bit_or a 0 ≡ a
or_none n zero h = refl
or_none zero (suc a) h = absurd (omega arith)
or_none (suc n) (suc a) h = omega (arith, or_halves (suc a) 0, or_none n (suc a / 2) (omega arith))

and_none : (n a : ℕ) → a ≤ n → bit_and a 0 ≡ 0
and_none n zero h = refl
and_none zero (suc a) h = absurd (omega arith)
and_none (suc n) (suc a) h =
    omega (arith, and_halves (suc a) 0, and_none n (suc a / 2) (omega arith))

double : (q k : ℕ) → q << suc k ≡ 2 * (q << k)
double q k = omega (arith, ap (λ (t : ℕ). q * t) (pow-suc 2 k))

-- A value beside a field of `k` bits.
pub bit_or_low : (k q r : ℕ) → r < 2 ^ k → bit_or (q << k) r ≡ (q << k) + r
bit_or_low zero q r h = ground (arith, or_none q q)
bit_or_low (suc k) q r h =
    ground (arith, or_halves (q << suc k) r, double q k, bit_or_low k q (r / 2) (omega arith))

and_low : (k q r : ℕ) → r < 2 ^ k → bit_and ((q << k) + r) (2 ^ k - 1) ≡ r
and_low zero q r h = ground (arith, and_none (q * 1 + r) (q * 1 + r))
and_low (suc k) q r h = ground (
  arith,
  and_halves ((q << suc k) + r) (2 ^ suc k - 1),
  double q k,
  pow-suc 2 k,
  one-le-pow k 2,
  and_low k q (r / 2) (omega arith),
)

-- The mask of the `k` lowest bits is a remainder.
pub bit_and_low : (k a : ℕ) → bit_and a (2 ^ k - 1) ≡ a % 2 ^ k
bit_and_low k a = ground (arith, one-le-pow k 2, and_low k (a / 2 ^ k) (a % 2 ^ k))
