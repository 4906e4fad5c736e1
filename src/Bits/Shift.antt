-- ===== src/Bits/Shift.antt =====
-- Exclusive or of shifted and masked numbers, and `or` of disjoint fields.
use Prim.Native.Nat.{bit_or-bitwise}
use native.Mathlib.Nat.{pow-suc, div-div-eq-div-mul, one-le-pow, div-add-mod, mod-lt}
use native.Mathlib.Nat.{mod-eq_of_lt, add-mul-mod_self_right}
use kubebao.Common.{
  ℕ, zero, suc, ◌+◌, ◌*◌, ◌/◌, ◌%◌, ◌^◌, ◌<◌, bit_or, ◌≡◌, sym, ap, ap₂, ◌∙◌, arith,
}
use kubebao.Bits.Step.{or_digit_step}
use kubebao.Bits.Xor.{◌⊕◌, xor_step, xor_half, xor_low, zero-xor}

div-two_pow : (k a : ℕ) → a / 2 ^ suc k ≡ a / 2 ^ k / 2
div-two_pow k a = ap (λ t. a / t) (pow-suc 2 k) ∙ sym (div-div-eq-div-mul a (2 ^ k) 2)

pub xor-div : (k a b : ℕ) → (a ⊕ b) / 2 ^ k ≡ a / 2 ^ k ⊕ b / 2 ^ k
xor-div zero a b = omega (arith, ap₂ (λ x y. x ⊕ y) (a_one a) (a_one b))
  where
    a_one : (x : ℕ) → x / 2 ^ 0 ≡ x
    a_one x = omega arith
xor-div (suc k) a b =
    div-two_pow k (a ⊕ b)
    ∙ ap (λ t. t / 2) (xor-div k a b)
    ∙ xor_half (a / 2 ^ k) (b / 2 ^ k)
    ∙ ap₂ (λ x y. x ⊕ y) (sym (div-two_pow k a)) (sym (div-two_pow k b))

xor_double : (x y : ℕ) → x * 2 ⊕ y * 2 ≡ (x ⊕ y) * 2
xor_double x y =
    xor_step (x * 2) (y * 2) ∙ omega (arith, ap₂ (λ s t. s ⊕ t) (half_double x) (half_double y))
  where
    half_double : (n : ℕ) → n * 2 / 2 ≡ n
    half_double n = omega arith

mul-two_pow : (k a : ℕ) → a * 2 ^ suc k ≡ a * 2 ^ k * 2
mul-two_pow k a = omega (arith, ap (λ t. a * t) (pow-suc 2 k))

pub xor-mul : (k a b : ℕ) → (a ⊕ b) * 2 ^ k ≡ a * 2 ^ k ⊕ b * 2 ^ k
xor-mul zero a b = omega (arith, ap₂ (λ x y. x ⊕ y) (times_one a) (times_one b))
  where
    times_one : (x : ℕ) → x * 2 ^ 0 ≡ x
    times_one x = omega arith
xor-mul (suc k) a b =
    mul-two_pow k (a ⊕ b)
    ∙ ap (λ t. t * 2) (xor-mul k a b)
    ∙ sym (xor_double (a * 2 ^ k) (b * 2 ^ k))
    ∙ ap₂ (λ x y. x ⊕ y) (sym (mul-two_pow k a)) (sym (mul-two_pow k b))

mod_double : (m a : ℕ) → 0 < m → a % (m * 2) ≡ a / 2 % m * 2 + a % 2
mod_double m a pos =
    ap (λ t. t % (m * 2)) split_a
    ∙ add-mul-mod_self_right (a / 2 % m * 2 + a % 2) (a / 2 / m) (m * 2)
    ∙ mod-eq_of_lt (omega (arith, mod-lt (a / 2) pos))
  where
    split_a : a ≡ (a / 2 % m * 2 + a % 2) + a / 2 / m * (m * 2)
    split_a = omega (arith, div-add-mod (a / 2) m)

pub mod_step : (k a : ℕ) → a % 2 ^ suc k ≡ a / 2 % 2 ^ k * 2 + a % 2
mod_step k a = ap (λ t. a % t) (pow-suc 2 k) ∙ mod_double (2 ^ k) a (one-le-pow k 2 (omega arith))

pub xor-mod : (k a b : ℕ) → (a ⊕ b) % 2 ^ k ≡ a % 2 ^ k ⊕ b % 2 ^ k
xor-mod zero a b = omega (arith, ap₂ (λ x y. x ⊕ y) (mod_one a) (mod_one b))
  where
    mod_one : (x : ℕ) → x % 2 ^ 0 ≡ 0
    mod_one x = omega arith
xor-mod (suc k) a b = omega (
  arith,
  mod_step k (a ⊕ b),
  xor_low a b,
  ap (λ t. t % 2 ^ k) (xor_half a b) ∙ xor-mod k (a / 2) (b / 2),
  xor_step (a % 2 ^ suc k) (b % 2 ^ suc k),
  mod_step k a,
  mod_step k b,
  ap₂ (λ x y. x ⊕ y) (half_mod a) (half_mod b),
)
  where
    half_mod : (x : ℕ) → x % 2 ^ suc k / 2 ≡ x / 2 % 2 ^ k
    half_mod x = omega (arith, mod_step k x)

-- Two numbers that share no bit: a multiple of `2 ^ k`, and one below it.
pub xor_fields : (k q r : ℕ) → r < 2 ^ k → r ⊕ q * 2 ^ k ≡ r + q * 2 ^ k
xor_fields zero q zero fits = zero-xor (q * 2 ^ 0) ∙ omega arith
xor_fields zero q (suc r) fits = absurd (omega arith)
xor_fields (suc k) q r fits = omega (
  arith,
  xor_step r (q * 2 ^ suc k),
  mul-two_pow k q,
  pow-suc 2 k,
  ap (λ t. r / 2 ⊕ t) half_field,
  xor_fields k q (r / 2) (omega (arith, pow-suc 2 k)),
)
  where
    half_field : q * 2 ^ suc k / 2 ≡ q * 2 ^ k
    half_field = omega (arith, mul-two_pow k q)

pub or_fields : (k q r : ℕ) → r < 2 ^ k → bit_or r (q * 2 ^ k) ≡ r + q * 2 ^ k
or_fields zero q zero fits = bit_or-bitwise 0 (q * 2 ^ 0) ∙ omega arith
or_fields zero q (suc r) fits = absurd (omega arith)
or_fields (suc k) q r fits = ground (
  arith,
  or_digit_step r (q * 2 ^ suc k),
  mul-two_pow k q,
  pow-suc 2 k,
  ap (λ t. bit_or (r / 2) t) half_field,
  or_fields k q (r / 2) (omega (arith, pow-suc 2 k)),
)
  where
    half_field : q * 2 ^ suc k / 2 ≡ q * 2 ^ k
    half_field = omega (arith, mul-two_pow k q)
