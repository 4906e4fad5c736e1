-- ===== src/Bits/Step.antt =====
-- One equation for the lowest binary digit of `bit_xor` and of `bit_or`, from the recursion on
-- digits that the native operations stand for.
use Prim.Native.Nat.{max, digits, differ, bit_xor-bitwise, bit_or-bitwise}
use kubebao.Common.{ℕ, zero, suc, ◌+◌, ◌*◌, ◌/◌, ◌%◌, ◌≤◌, bit_or, bit_xor, ◌≡◌, refl, arith}

module _ (f : ℕ → ℕ → ℕ) where
  abbrev rest_of : ℕ → ℕ → ℕ → ℕ
  rest_of = digits (λ y. y) f

  -- Two amounts of fuel, neither below the first number, give the same.
  rest_of-fuel : (y x few many : ℕ) → x ≤ many → x ≤ few → rest_of many x y ≡ rest_of few x y
  rest_of-fuel y zero zero zero high low = refl
  rest_of-fuel y zero zero (suc many) high low = refl
  rest_of-fuel y zero (suc few) zero high low = refl
  rest_of-fuel y zero (suc few) (suc many) high low = refl
  rest_of-fuel y (suc x) zero many high low = absurd (omega arith)
  rest_of-fuel y (suc x) (suc few) zero high low = absurd (omega arith)
  rest_of-fuel y (suc x) (suc few) (suc many) high low =
      rw (rest_of-fuel (y / 2) (suc x / 2) few many (omega arith) (omega arith))

  rest_of-suc :
      (x y : ℕ)
      → rest_of (suc x) (suc x) y
        ≡ rest_of (suc x / 2) (suc x / 2) (y / 2) * 2 + f (suc x % 2) (y % 2)
  rest_of-suc x y =
      omega (arith, rest_of-fuel (y / 2) (suc x / 2) (suc x / 2) x (omega arith) (omega arith))

bit_xor-suc :
    (a b : ℕ) → bit_xor (suc a) b ≡ bit_xor (suc a / 2) (b / 2) * 2 + differ (suc a % 2) (b % 2)
bit_xor-suc a b = simp bit_xor-bitwise (rest_of-suc differ a b)

pub zero-bit_xor : (b : ℕ) → bit_xor 0 b ≡ b
zero-bit_xor b = bit_xor-bitwise 0 b

bit_cases_differ : (x y : ℕ) → x ≤ 1 → y ≤ 1 → differ x y ≡ (x + y) % 2
bit_cases_differ zero y p q = omega arith
bit_cases_differ (suc zero) zero p q = refl
bit_cases_differ (suc zero) (suc zero) p q = refl
bit_cases_differ (suc zero) (suc (suc y)) p q = absurd (omega arith)
bit_cases_differ (suc (suc x)) y p q = absurd (omega arith)

pub bit_xor_step : (a b : ℕ) → bit_xor a b ≡ bit_xor (a / 2) (b / 2) * 2 + (a + b) % 2
bit_xor_step zero b = omega (arith, zero-bit_xor b, zero-bit_xor (b / 2))
bit_xor_step (suc a) b =
    omega (arith, bit_xor-suc a b, bit_cases_differ (suc a % 2) (b % 2) (omega arith) (omega arith))

pub or_digit_step : (x y : ℕ) → bit_or x y ≡ bit_or (x / 2) (y / 2) * 2 + max (x % 2) (y % 2)
or_digit_step zero y = omega (arith, bit_or-bitwise 0 y, bit_or-bitwise 0 (y / 2))
or_digit_step (suc x) y = simp bit_or-bitwise (rest_of-suc max x y)
