-- ===== src/Prelude/Bits.antt =====
-- `|` of a number and of a field above it, as a sum; recursion along `<`.
use Prim.Native.Nat.{
  ℕ, zero, suc, ◌+◌, ◌*◌, ◌/◌, ◌%◌, ◌^◌, ◌≤◌, ◌<◌, max, digits, bit_or, bit_or-bitwise,
}
use mathlib.Core.Path.{◌≡◌, refl, ap}
use mathlib.Core.WellFounded.{Acc, WellFounded}
use native.Mathlib.Nat.{pow-suc}
use native.Mathlib.Omega.{arith}

below-Acc : (k n : ℕ) → n < k → Acc ◌<◌ n
below-Acc zero n h = elim h [ ]
below-Acc (suc k) n h = Acc.intro n (λ m hm. below-Acc k m (omega arith))

unfoldable pub lt_wf : WellFounded ◌<◌
unfolding below-Acc
lt_wf = record { apply = λ n. below-Acc (suc n) n (omega arith) }

-- The native operation stands for a recursion on binary digits that takes fuel; more fuel than the
-- first number is as good.
abbrev or_digits : ℕ → ℕ → ℕ → ℕ
or_digits n a b = digits (λ b. b) max n a b

or_digits_more : (n m a b : ℕ) → a ≤ n → a ≤ m → or_digits n a b ≡ or_digits m a b
or_digits_more zero zero a b h k = refl
or_digits_more zero (suc m) zero b h k = refl
or_digits_more (suc n) zero zero b h k = refl
or_digits_more (suc n) (suc m) zero b h k = refl
or_digits_more zero m (suc a) b h k = absurd (omega arith)
or_digits_more (suc n) zero (suc a) b h k = absurd (omega arith)
or_digits_more (suc n) (suc m) (suc a) b h k =
    omega (arith, or_digits_more n m (suc a / 2) (b / 2) (omega arith) (omega arith))

-- The lowest digit of an `|`.
or_digit : (a b : ℕ) → bit_or a b ≡ bit_or (a / 2) (b / 2) * 2 + max (a % 2) (b % 2)
or_digit zero b = omega (arith, bit_or-bitwise 0 b, bit_or-bitwise 0 (b / 2))
or_digit (suc a) b = omega (
  arith,
  bit_or-bitwise (suc a) b,
  bit_or-bitwise (suc a / 2) (b / 2),
  or_digits_more a (suc a / 2) (suc a / 2) (b / 2) (omega arith) (omega arith),
)

zero-or : (b : ℕ) → bit_or 0 b ≡ b
zero-or b = bit_or-bitwise 0 b

field_shift : (q k : ℕ) → q * 2 ^ suc k ≡ 2 * (q * 2 ^ k)
field_shift q k = omega (arith, ap (λ (t : ℕ). q * t) (pow-suc 2 k))

-- A number below 2 ^ k, and a field from bit k on.
pub bit_or_field : (k r q : ℕ) → r < 2 ^ k → bit_or r (q * 2 ^ k) ≡ r + q * 2 ^ k
bit_or_field zero r q h = ground (arith, zero-or q)
bit_or_field (suc k) r q h = ground (
  arith,
  or_digit r (q * 2 ^ suc k),
  field_shift q k,
  pow-suc 2 k,
  bit_or_field k (r / 2) q (omega (arith, pow-suc 2 k)),
)
