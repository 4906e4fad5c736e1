-- ===== src/Bits/Xor.antt =====
-- The group laws of exclusive or, and how it meets shifts and masks.
use native.Mathlib.Nat.{pow-suc}
use kubebao.Common.{
  ℕ, zero, suc, ◌+◌, ◌*◌, ◌/◌, ◌%◌, ◌^◌, ◌≤◌, ◌<◌, bit_xor, ◌≡◌, refl, sym, ap, ◌∙◌, ◌≡⟨◌⟩◌, ◌∎,
  arith,
}
use kubebao.Bits.Step.{bit_xor_step, zero-bit_xor}

infixl 60 ◌⊕◌
-- Go's `a ^ b` on unsigned words and bytes.
abbrev pub ◌⊕◌ : ℕ → ℕ → ℕ
a ⊕ b = bit_xor a b

pub xor_step : (a b : ℕ) → a ⊕ b ≡ (a / 2 ⊕ b / 2) * 2 + (a + b) % 2
xor_step = bit_xor_step

pub zero-xor : (a : ℕ) → 0 ⊕ a ≡ a
zero-xor = zero-bit_xor

-- Every law is an induction on the halves of its first number, over a bound on all of them.
xor_comm_below : (n a b : ℕ) → a + b ≤ n → a ⊕ b ≡ b ⊕ a
xor_comm_below zero zero zero h = refl
xor_comm_below zero (suc a) b h = absurd (omega arith)
xor_comm_below zero zero (suc b) h = absurd (omega arith)
xor_comm_below (suc n) zero zero h = refl
xor_comm_below (suc n) a b h =
    omega (arith, xor_step a b, xor_step b a, xor_comm_below n (a / 2) (b / 2) (omega arith))

pub xor_comm : (a b : ℕ) → a ⊕ b ≡ b ⊕ a
xor_comm a b = xor_comm_below (a + b) a b (omega arith)

pub xor-zero : (a : ℕ) → a ⊕ 0 ≡ a
xor-zero a = xor_comm a 0 ∙ zero-xor a

pub xor_half : (a b : ℕ) → (a ⊕ b) / 2 ≡ a / 2 ⊕ b / 2
xor_half a b = omega (arith, xor_step a b)

pub xor_low : (a b : ℕ) → (a ⊕ b) % 2 ≡ (a + b) % 2
xor_low a b = omega (arith, xor_step a b)

xor_assoc_below : (n a b c : ℕ) → a + b + c ≤ n → (a ⊕ b) ⊕ c ≡ a ⊕ (b ⊕ c)
xor_assoc_below n zero b c h = ap (λ t. t ⊕ c) (zero-xor b) ∙ sym (zero-xor (b ⊕ c))
xor_assoc_below zero (suc a) b c h = absurd (omega arith)
xor_assoc_below (suc n) (suc a) b c h = omega (
  arith,
  xor_step (suc a ⊕ b) c,
  xor_step (suc a) (b ⊕ c),
  xor_low (suc a) b,
  xor_low b c,
  ap (λ t. t ⊕ c / 2) (xor_half (suc a) b),
  ap (λ t. suc a / 2 ⊕ t) (xor_half b c),
  xor_assoc_below n (suc a / 2) (b / 2) (c / 2) (omega arith),
)

pub xor_assoc : (a b c : ℕ) → (a ⊕ b) ⊕ c ≡ a ⊕ (b ⊕ c)
xor_assoc a b c = xor_assoc_below (a + b + c) a b c (omega arith)

xor_self_below : (n a : ℕ) → a ≤ n → a ⊕ a ≡ 0
xor_self_below n zero h = refl
xor_self_below zero (suc a) h = absurd (omega arith)
xor_self_below (suc n) (suc a) h =
    omega (arith, xor_step (suc a) (suc a), xor_self_below n (suc a / 2) (omega arith))

pub xor_self : (a : ℕ) → a ⊕ a ≡ 0
xor_self a = xor_self_below a a (omega arith)

-- What is added twice is gone.
pub xor_cancel : (a b : ℕ) → (a ⊕ b) ⊕ b ≡ a
xor_cancel a b = xor_assoc a b b ∙ ap (λ t. a ⊕ t) (xor_self b) ∙ xor-zero a

pub xor_regroup : (a b c d : ℕ) → (a ⊕ b) ⊕ (c ⊕ d) ≡ (a ⊕ c) ⊕ (b ⊕ d)
xor_regroup a b c d =
    (a ⊕ b) ⊕ (c ⊕ d)
    ≡⟨ xor_assoc a b (c ⊕ d) ⟩ a ⊕ (b ⊕ (c ⊕ d))
    ≡⟨ ap (λ t. a ⊕ t) (sym (xor_assoc b c d)) ⟩ a ⊕ ((b ⊕ c) ⊕ d)
    ≡⟨ ap (λ t. a ⊕ (t ⊕ d)) (xor_comm b c) ⟩ a ⊕ ((c ⊕ b) ⊕ d)
    ≡⟨ ap (λ t. a ⊕ t) (xor_assoc c b d) ⟩ a ⊕ (c ⊕ (b ⊕ d))
    ≡⟨ sym (xor_assoc a c (b ⊕ d)) ⟩ (a ⊕ c) ⊕ (b ⊕ d) ∎

pub xor-lt : (k a b : ℕ) → a < 2 ^ k → b < 2 ^ k → a ⊕ b < 2 ^ k
xor-lt zero zero zero p q = p
xor-lt zero (suc a) b p q = absurd (omega arith)
xor-lt zero zero (suc b) p q = absurd (omega arith)
xor-lt (suc k) a b p q = omega (
  arith,
  pow-suc 2 k,
  xor_step a b,
  xor-lt k (a / 2) (b / 2) (omega (arith, pow-suc 2 k)) (omega (arith, pow-suc 2 k)),
)
