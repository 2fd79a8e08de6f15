-- ===== src/Prelude/Int64.antt =====
-- Go's int64 as an integer. Operations that can overflow wrap around, as two's complement does.
use Prim.Native.Nat.{ℕ, zero, suc, ◌+◌, ◌-◌, ◌*◌, ◌%◌, ◌^◌}
use mathlib.Core.Path.{◌≡◌, refl, ap}
use mathlib.Core.Logic.{◌≢◌}
use mathlib.Core.Bool.{Bool, true, false}
use native.Mathlib.Omega.{arith}
use locket.Prelude.Tests.{ltb, leb, nat_eq, if◌then◌else◌}

-- `negsuc n` is -(n + 1).
pub data ℤ : Type 0 where
  pos : ℕ → ℤ
  negsuc : ℕ → ℤ

abbrev pub eq_ℤ : ℤ → ℤ → Bool
eq_ℤ (pos a) (pos b) = nat_eq a b
eq_ℤ (negsuc a) (negsuc b) = nat_eq a b
eq_ℤ (pos a) (negsuc b) = false
eq_ℤ (negsuc a) (pos b) = false

-- a ≤ b
abbrev pub leb_ℤ : ℤ → ℤ → Bool
leb_ℤ (pos a) (pos b) = leb a b
leb_ℤ (negsuc a) (negsuc b) = leb b a
leb_ℤ (pos a) (negsuc b) = false
leb_ℤ (negsuc a) (pos b) = true

abbrev pub ltb_ℤ : ℤ → ℤ → Bool
ltb_ℤ (pos a) (pos b) = ltb a b
ltb_ℤ (negsuc a) (negsuc b) = ltb b a
ltb_ℤ (pos a) (negsuc b) = false
ltb_ℤ (negsuc a) (pos b) = true

-- The greatest int64.
abbrev pub max_int64 : ℕ
max_int64 = 2 ^ 63 - 1

-- i++
abbrev pub inc_int64 : ℤ → ℤ
inc_int64 (pos n) = if nat_eq n max_int64 then negsuc max_int64 else pos (n + 1)
inc_int64 (negsuc zero) = pos 0
inc_int64 (negsuc (suc n)) = negsuc n

-- The int64 that a bit pattern below 2 ^ 64 stands for.
abbrev pub to_int64 : ℕ → ℤ
to_int64 n = if leb n max_int64 then pos n else negsuc (2 ^ 64 - 1 - n)

-- i * k for a positive constant k.
abbrev pub mul_int64 : ℤ → ℕ → ℤ
mul_int64 (pos n) k = to_int64 ((n * k) % 2 ^ 64)
mul_int64 (negsuc n) k = to_int64 ((2 ^ 64 - (suc n * k) % 2 ^ 64) % 2 ^ 64)

pub eq_ℤ→eq : (a b : ℤ) → eq_ℤ a b ≡ true → a ≡ b
eq_ℤ→eq a b h = ground arith

pub eq_ℤ_refl : (a : ℤ) → eq_ℤ a a ≡ true
eq_ℤ_refl (pos a) = ground arith
eq_ℤ_refl (negsuc a) = ground arith

-- Below the greatest int64, i++ is greater than i.
pub lt-inc_int64 : (a : ℤ) → a ≢ pos max_int64 → ltb_ℤ a (inc_int64 a) ≡ true
lt-inc_int64 (pos n) h = ground (arith, λ (e : n ≡ max_int64). h (ap pos e))
lt-inc_int64 (negsuc zero) h = refl
lt-inc_int64 (negsuc (suc n)) h = ground arith
