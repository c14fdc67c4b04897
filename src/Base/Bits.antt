-- ===== src/Base/Bits.antt =====
-- `|` of disjoint fields and `&` with a mask of low ones, as arithmetic on the native numbers.
use Prim.Native.Nat.{
  ℕ, zero, suc, ◌+◌, ◌*◌, ◌/◌, ◌%◌, ◌^◌, ◌≤◌, ◌<◌, min, max, bit_and, bit_or, digits,
  bit_and-bitwise, bit_or-bitwise,
}
use mathlib.Core.Path.{◌≡◌, refl, ap}
use mathlib.Core.Bool.{Bool, true, ◌&&◌}
use native.Mathlib.Nat.{pow-suc}
use native.Mathlib.Omega.{arith}
use kason.Base.Tests.{◌==◌, ==_iff}

-- Over one byte, by a table.
every : ℕ → (ℕ → Bool) → Bool
every zero p = true
every (suc n) p = p n && every n p

every→at : (n : ℕ) (p : ℕ → Bool) → every n p ≡ true → (x : ℕ) → x < n → p x ≡ true
unfolding every
every→at zero p h x lt = absurd (omega arith)
every→at (suc n) p h x lt = ground (arith, every→at n p (ground arith) x)

module _ (c : ℕ) (byte : c < 256) where
  pub top_two : bit_and c 0xc0 ≡ c / 64 * 64
  unfolding every
  top_two = (==_iff _ _).0 (every→at 256 (λ x. bit_and x 0xc0 == x / 64 * 64) refl c byte)

-- The digits of `|`: the fuel is the left operand.
abbrev or_digits : ℕ → ℕ → ℕ → ℕ
or_digits = digits (λ y. y) max

or_digits_enough : (m n a b : ℕ) → a ≤ m → a ≤ n → or_digits m a b ≡ or_digits n a b
or_digits_enough zero zero zero b p q = refl
or_digits_enough zero (suc n) zero b p q = refl
or_digits_enough (suc m) zero zero b p q = refl
or_digits_enough (suc m) (suc n) zero b p q = refl
or_digits_enough zero n (suc a) b p q = absurd (omega arith)
or_digits_enough (suc m) zero (suc a) b p q = absurd (omega arith)
or_digits_enough (suc m) (suc n) (suc a) b p q =
    omega (arith, or_digits_enough m n (suc a / 2) (b / 2) (omega arith) (omega arith))

bit_or_digit : (a b : ℕ) → bit_or a b ≡ bit_or (a / 2) (b / 2) * 2 + max (a % 2) (b % 2)
bit_or_digit zero b = omega (arith, bit_or-bitwise 0 b, bit_or-bitwise 0 (b / 2))
bit_or_digit (suc a) b = omega (
  arith,
  bit_or-bitwise (suc a) b,
  bit_or-bitwise (suc a / 2) (b / 2),
  or_digits_enough a (suc a / 2) (suc a / 2) (b / 2) (omega arith) (omega arith),
)

bit_or-zero_upto : (k a : ℕ) → a ≤ k → bit_or a 0 ≡ a
bit_or-zero_upto zero zero h = refl
bit_or-zero_upto zero (suc a) h = absurd (omega arith)
bit_or-zero_upto (suc k) zero h = refl
bit_or-zero_upto (suc k) (suc a) h =
    omega (arith, bit_or_digit (suc a) 0, bit_or-zero_upto k (suc a / 2) (omega arith))

doubled : (q k : ℕ) → q * 2 ^ suc k ≡ q * 2 ^ k * 2
doubled q k = omega (arith, ap (λ (t : ℕ). q * t) (pow-suc 2 k))

-- A field of `k` low bits beside a number shifted past it.
pub bit_or-shifted : (k q r : ℕ) → r < 2 ^ k → bit_or (q * 2 ^ k) r ≡ q * 2 ^ k + r
bit_or-shifted zero q r h =
    let none_left : r ≡ 0 = omega arith in
    rw none_left (omega (arith, bit_or-zero_upto (q * 2 ^ 0) (q * 2 ^ 0) (omega arith)))
bit_or-shifted (suc k) q r h = ground (
  arith,
  bit_or_digit (q * 2 ^ suc k) r,
  pow-suc 2 k,
  doubled q k,
  bit_or-shifted k q (r / 2) (omega (arith, pow-suc 2 k)),
)

abbrev and_loop : ℕ → ℕ → ℕ → ℕ
and_loop = digits (λ y. zero) min

and_loop_enough : (m n a b : ℕ) → a ≤ m → a ≤ n → and_loop m a b ≡ and_loop n a b
and_loop_enough zero zero zero b p q = refl
and_loop_enough zero (suc n) zero b p q = refl
and_loop_enough (suc m) zero zero b p q = refl
and_loop_enough (suc m) (suc n) zero b p q = refl
and_loop_enough zero n (suc a) b p q = absurd (omega arith)
and_loop_enough (suc m) zero (suc a) b p q = absurd (omega arith)
and_loop_enough (suc m) (suc n) (suc a) b p q =
    omega (arith, and_loop_enough m n (suc a / 2) (b / 2) (omega arith) (omega arith))

bit_and_digit : (a b : ℕ) → bit_and a b ≡ bit_and (a / 2) (b / 2) * 2 + min (a % 2) (b % 2)
bit_and_digit zero b = omega (arith, bit_and-bitwise 0 b, bit_and-bitwise 0 (b / 2))
bit_and_digit (suc a) b = omega (
  arith,
  bit_and-bitwise (suc a) b,
  bit_and-bitwise (suc a / 2) (b / 2),
  and_loop_enough a (suc a / 2) (suc a / 2) (b / 2) (omega arith) (omega arith),
)

bit_and-zero_upto : (k a : ℕ) → a ≤ k → bit_and a 0 ≡ 0
bit_and-zero_upto zero zero h = refl
bit_and-zero_upto zero (suc a) h = absurd (omega arith)
bit_and-zero_upto (suc k) zero h = refl
bit_and-zero_upto (suc k) (suc a) h =
    omega (arith, bit_and_digit (suc a) 0, bit_and-zero_upto k (suc a / 2) (omega arith))

-- Masks of one to six ones.
low_one : (a : ℕ) → bit_and a 1 ≡ a % 2
low_one a = omega (arith, bit_and_digit a 1, bit_and-zero_upto (a / 2) (a / 2) (omega arith))

pub low_two : (a : ℕ) → bit_and a 3 ≡ a % 4
low_two a = omega (arith, bit_and_digit a 3, low_one (a / 2))

pub low_three : (a : ℕ) → bit_and a 0x07 ≡ a % 8
low_three a = omega (arith, bit_and_digit a 7, low_two (a / 2))

pub low_four : (a : ℕ) → bit_and a 0x0f ≡ a % 16
low_four a = omega (arith, bit_and_digit a 15, low_three (a / 2))

pub low_five : (a : ℕ) → bit_and a 0x1f ≡ a % 32
low_five a = omega (arith, bit_and_digit a 31, low_four (a / 2))

pub low_six : (a : ℕ) → bit_and a 0x3f ≡ a % 64
low_six a = omega (arith, bit_and_digit a 63, low_five (a / 2))

low_eight : (a : ℕ) → bit_and a 0xff ≡ a % 256
low_eight a = omega (arith, bit_and_digit a 255, bit_and_digit (a / 2) 127, low_six (a / 2 / 2))

pub low_ten : (a : ℕ) → bit_and a 0x3ff ≡ a % 1024
low_ten a = omega (arith, bit_and_digit a 1023, bit_and_digit (a / 2) 511, low_eight (a / 2 / 2))

-- The two bits above six others.
even_mask : (a m : ℕ) → bit_and a (m * 2) ≡ bit_and (a / 2) m * 2
even_mask a m =
    let half : m * 2 / 2 ≡ m = omega arith in rw (bit_and_digit a (m * 2), half) (omega arith)

pub high_two : (a : ℕ) → bit_and a 0xc0 ≡ a / 64 % 4 * 64
high_two a = omega (
  arith,
  even_mask a 96,
  even_mask (a / 2) 48,
  even_mask (a / 2 / 2) 24,
  even_mask (a / 2 / 2 / 2) 12,
  even_mask (a / 2 / 2 / 2 / 2) 6,
  even_mask (a / 2 / 2 / 2 / 2 / 2) 3,
  low_two (a / 2 / 2 / 2 / 2 / 2 / 2),
)

-- `x << k` in `uint32_t`.
abbrev pub shl32 : ℕ → ℕ → ℕ
shl32 x k = x * 2 ^ k % 2 ^ 32
