-- ===== src/Bits/Linear.antt =====
-- Functions on numbers that respect exclusive or. Such a function on n bits is known from its
-- values at the n powers of two.
use native.Mathlib.Nat.{pow-suc}
use kubebao.Common.{
  ℕ, zero, suc, ◌+◌, ◌*◌, ◌/◌, ◌%◌, ◌^◌, ◌<◌, List, [], ◌∷◌, ◌≡◌, refl, sym, ap, ap₂, ◌∙◌, arith,
}
use kubebao.Bits.Xor.{
  ◌⊕◌, xor_half, xor_low, xor_regroup, xor_self, zero-xor, xor-zero, xor_cancel, xor-zero,
}
use kubebao.Bits.Shift.{xor-div, xor-mul, xor-mod, xor_fields}

abbrev pub IsLinear : (ℕ → ℕ) → Type 0
IsLinear f = (a b : ℕ) → f (a ⊕ b) ≡ f a ⊕ f b

pub linear-zero : (f : ℕ → ℕ) → IsLinear f → f 0 ≡ 0
linear-zero f lin =
    sym (xor_cancel (f 0) (f 0)) ∙ ap (λ t. t ⊕ f 0) (sym (lin 0 0)) ∙ xor_self (f 0)

pub compose-IsLinear : (f g : ℕ → ℕ) → IsLinear f → IsLinear g → IsLinear (λ x. f (g x))
compose-IsLinear f g p q a b = ap f (q a b) ∙ p (g a) (g b)

pub xor-IsLinear : (f g : ℕ → ℕ) → IsLinear f → IsLinear g → IsLinear (λ x. f x ⊕ g x)
xor-IsLinear f g p q a b = ap₂ (λ x y. x ⊕ y) (p a b) (q a b) ∙ xor_regroup (f a) (f b) (g a) (g b)

-- `c` if the bit is set, else nothing.
unfoldable pub pick : ℕ → ℕ → ℕ
pick zero c = 0
pick (suc bit) c = c

pick_add : (c x y : ℕ) → x < 2 → y < 2 → pick ((x + y) % 2) c ≡ pick x c ⊕ pick y c
unfolding pick
pick_add c zero zero p q = sym (zero-xor 0)
pick_add c zero (suc zero) p q = sym (zero-xor c)
pick_add c (suc zero) zero p q = sym (xor-zero c)
pick_add c (suc zero) (suc zero) p q = sym (xor_self c)
pick_add c zero (suc (suc y)) p q = absurd (omega arith)
pick_add c (suc zero) (suc (suc y)) p q = absurd (omega arith)
pick_add c (suc (suc x)) y p q = absurd (omega arith)

pub bit-IsLinear : (c : ℕ) → IsLinear (λ v. pick (v % 2) c)
bit-IsLinear c a b =
    ap (λ t. pick t c) (xor_low a b ∙ omega arith)
    ∙ pick_add c (a % 2) (b % 2) (omega arith) (omega arith)

-- The sum of the entries at the set bits of a number.
unfoldable pub combine : List ℕ → ℕ → ℕ
unfolding pick
combine [] v = 0
combine (c ∷ cs) v = pick (v % 2) c ⊕ combine cs (v / 2)

pub half-IsLinear : IsLinear (λ v. v / 2)
half-IsLinear = xor_half

pub combine-IsLinear : (cs : List ℕ) → IsLinear (combine cs)
unfolding combine
combine-IsLinear [] = λ a b. sym (zero-xor 0)
combine-IsLinear (c ∷ cs) =
    xor-IsLinear (λ v. pick (v % 2) c) (λ v. combine cs (v / 2)) (bit-IsLinear c)
      (compose-IsLinear (combine cs) (λ v. v / 2) (combine-IsLinear cs) half-IsLinear)

-- The values of `f` at 1, 2, 4, …
unfoldable pub basis : ℕ → (ℕ → ℕ) → List ℕ
basis zero f = []
basis (suc n) f = f 1 ∷ basis n (λ w. f (w * 2))

double-IsLinear : IsLinear (λ w. w * 2)
double-IsLinear a b = xor-mul 1 a b

split_bit : (v : ℕ) → v ≡ v % 2 ⊕ v / 2 * 2
split_bit v = omega (arith, xor_fields 1 (v / 2) (v % 2) (omega arith))

at_bit : (f : ℕ → ℕ) → IsLinear f → (x : ℕ) → x < 2 → f x ≡ pick x (f 1)
unfolding pick
at_bit f lin zero h = linear-zero f lin
at_bit f lin (suc zero) h = refl
at_bit f lin (suc (suc x)) h = absurd (omega arith)

-- A linear function on n bits is the combination of its values at the powers of two.
pub combine-basis :
    (n : ℕ) (f : ℕ → ℕ) → IsLinear f → (v : ℕ) → v < 2 ^ n → f v ≡ combine (basis n f) v
unfolding combine basis
combine-basis zero f lin zero h = linear-zero f lin
combine-basis zero f lin (suc v) h = absurd (omega arith)
combine-basis (suc n) f lin v h =
    ap f (split_bit v)
    ∙ lin (v % 2) (v / 2 * 2)
    ∙ ap₂ (λ x y. x ⊕ y) (at_bit f lin (v % 2) (omega arith))
        (combine-basis n (λ w. f (w * 2)) (compose-IsLinear f (λ w. w * 2) lin double-IsLinear)
          (v / 2) (omega (arith, pow-suc 2 n)))

-- Two linear functions that agree at the powers of two below `2 ^ n` agree below `2 ^ n`.
pub linear_ext :
    (n : ℕ) (f g : ℕ → ℕ)
    → IsLinear f
    → IsLinear g
    → basis n f ≡ basis n g
    → (v : ℕ) → v < 2 ^ n
    → f v ≡ g v
linear_ext n f g p q same v h =
    combine-basis n f p v h ∙ ap (λ t. combine t v) same ∙ sym (combine-basis n g q v h)

pub div-IsLinear : (k : ℕ) → IsLinear (λ x. x / 2 ^ k)
div-IsLinear = xor-div

pub mul-IsLinear : (k : ℕ) → IsLinear (λ x. x * 2 ^ k)
mul-IsLinear = xor-mul

pub mod-IsLinear : (k : ℕ) → IsLinear (λ x. x % 2 ^ k)
mod-IsLinear = xor-mod
