-- ===== src/Kuznyechik/Gost/Linear.antt =====
-- The register of the standard and its reverse, as functions on blocks.
use kubebao.Common.{
  ℕ, zero, suc, ◌*◌, ◌/◌, ◌%◌, ◌^◌, ◌<◌, List, [], ◌∷◌, ◌≡◌, refl, sym, ap, ◌∙◌, arith,
}
use kubebao.Bits.Xor.{◌⊕◌, xor-lt, zero-xor}
use kubebao.Bits.Linear.{
  IsLinear, pick, compose-IsLinear, xor-IsLinear, bit-IsLinear, div-IsLinear, mul-IsLinear,
  mod-IsLinear, linear_ext, basis,
}
use kubebao.Kuznyechik.Gost.{
  times_x, field_mul, byte, coefficients, weighted, gost_r, gost_r_inv, iterate, gost_l, gost_l_inv,
}

times_x-IsLinear : IsLinear times_x
unfolding times_x
times_x-IsLinear =
    xor-IsLinear (λ a. a * 2 ^ 1 % 2 ^ 8) (λ a. pick (a / 2 ^ 7 % 2) 0xc3)
      (compose-IsLinear (λ a. a % 2 ^ 8) (λ a. a * 2 ^ 1) (mod-IsLinear 8) (mul-IsLinear 1))
      (compose-IsLinear (λ v. pick (v % 2) 0xc3) (λ a. a / 2 ^ 7) (bit-IsLinear 0xc3)
        (div-IsLinear 7))

choose-IsLinear : (b : ℕ) → IsLinear (pick b)
unfolding pick
choose-IsLinear zero x y = sym (zero-xor 0)
choose-IsLinear (suc b) x y = refl

field_mul-IsLinear : (n c : ℕ) → IsLinear (field_mul n c)
unfolding field_mul
field_mul-IsLinear zero c = λ x y. sym (zero-xor 0)
field_mul-IsLinear (suc n) c =
    xor-IsLinear (pick (c % 2)) (λ a. field_mul n (c / 2) (times_x a)) (choose-IsLinear (c % 2))
      (compose-IsLinear (field_mul n (c / 2)) times_x (field_mul-IsLinear n (c / 2))
        times_x-IsLinear)

pub byte-IsLinear : (i : ℕ) → IsLinear (byte i)
unfolding byte
byte-IsLinear i =
    compose-IsLinear (λ n. n % 2 ^ 8) (λ n. n / 2 ^ (8 * i)) (mod-IsLinear 8) (div-IsLinear (8 * i))

weighted-IsLinear : (cs : List ℕ) (i : ℕ) → IsLinear (weighted cs i)
unfolding weighted
weighted-IsLinear [] i = λ x y. sym (zero-xor 0)
weighted-IsLinear (c ∷ cs) i =
    xor-IsLinear (λ n. field_mul 8 c (byte i n)) (weighted cs (suc i))
      (compose-IsLinear (field_mul 8 c) (byte i) (field_mul-IsLinear 8 c) (byte-IsLinear i))
      (weighted-IsLinear cs (suc i))

pub gost_r-IsLinear : IsLinear gost_r
unfolding gost_r
gost_r-IsLinear =
    xor-IsLinear (weighted coefficients 0) (λ n. n * 2 ^ 8 % 2 ^ 128)
      (weighted-IsLinear coefficients 0)
      (compose-IsLinear (λ n. n % 2 ^ 128) (λ n. n * 2 ^ 8) (mod-IsLinear 128) (mul-IsLinear 8))

-- The rotation of a block by one byte, whose weighted sum is the byte that R lost.
rotate : ℕ → ℕ
rotate n = n / 2 ^ 8 ⊕ n % 2 ^ 8 * 2 ^ 120

rotate-IsLinear : IsLinear rotate
unfolding rotate
rotate-IsLinear =
    xor-IsLinear (λ n. n / 2 ^ 8) (λ n. n % 2 ^ 8 * 2 ^ 120) (div-IsLinear 8)
      (compose-IsLinear (λ n. n * 2 ^ 120) (λ n. n % 2 ^ 8) (mul-IsLinear 120) (mod-IsLinear 8))

pub gost_r_inv-IsLinear : IsLinear gost_r_inv
unfolding gost_r_inv rotate
gost_r_inv-IsLinear =
    xor-IsLinear (λ n. n / 2 ^ 8) (λ n. weighted coefficients 0 (rotate n) * 2 ^ 120)
      (div-IsLinear 8)
      (compose-IsLinear (λ n. n * 2 ^ 120) (λ n. weighted coefficients 0 (rotate n))
        (mul-IsLinear 120)
        (compose-IsLinear (weighted coefficients 0) rotate (weighted-IsLinear coefficients 0)
          rotate-IsLinear))

iterate-IsLinear : (k : ℕ) (g : ℕ → ℕ) → IsLinear g → IsLinear (iterate k g)
iterate-IsLinear zero g lin = λ a b. refl
iterate-IsLinear (suc k) g lin = compose-IsLinear (iterate k g) g (iterate-IsLinear k g lin) lin

pub gost_l-IsLinear : IsLinear gost_l
unfolding gost_l
gost_l-IsLinear = iterate-IsLinear 16 gost_r gost_r-IsLinear

pub gost_l_inv-IsLinear : IsLinear gost_l_inv
unfolding gost_l_inv
gost_l_inv-IsLinear = iterate-IsLinear 16 gost_r_inv gost_r_inv-IsLinear

pick-lt : (b c : ℕ) → c < 2 ^ 8 → pick b c < 2 ^ 8
unfolding pick
pick-lt zero c h = omega arith
pick-lt (suc b) c h = h

field_mul-lt : (n c a : ℕ) → a < 2 ^ 8 → field_mul n c a < 2 ^ 8
unfolding field_mul
field_mul-lt zero c a h = omega arith
field_mul-lt (suc n) c a h =
    xor-lt 8 (pick (c % 2) a) (field_mul n (c / 2) (times_x a)) (pick-lt (c % 2) a h) (
      field_mul-lt n (c / 2) (times_x a) (
        xor-lt 8 (a * 2 ^ 1 % 2 ^ 8) (pick (a / 2 ^ 7 % 2) 0xc3) (omega arith)
          (pick-lt (a / 2 ^ 7 % 2) 0xc3 (omega arith))))

weighted-lt : (cs : List ℕ) (i n : ℕ) → weighted cs i n < 2 ^ 8
unfolding weighted
weighted-lt [] i n = omega arith
weighted-lt (c ∷ cs) i n =
    xor-lt 8 (field_mul 8 c (byte i n)) (weighted cs (suc i) n)
      (field_mul-lt 8 c (byte i n) (omega arith)) (weighted-lt cs (suc i) n)

pub gost_r-lt : (n : ℕ) → gost_r n < 2 ^ 128
unfolding gost_r
gost_r-lt n =
    xor-lt 128 (weighted coefficients 0 n) (n * 2 ^ 8 % 2 ^ 128)
      (omega (arith, weighted-lt coefficients 0 n)) (omega arith)

gost_r_inv-gost_r : (n : ℕ) → n < 2 ^ 128 → gost_r_inv (gost_r n) ≡ n
unfolding basis gost_r gost_r_inv pick
gost_r_inv-gost_r n h =
    linear_ext 128 (λ x. gost_r_inv (gost_r x)) (λ x. x)
      (compose-IsLinear gost_r_inv gost_r gost_r_inv-IsLinear gost_r-IsLinear) (λ a b. refl) refl n
      h

iterate-suc : (k : ℕ) (g : ℕ → ℕ) (n : ℕ) → iterate (suc k) g n ≡ g (iterate k g n)
iterate-suc zero g n = refl
iterate-suc (suc k) g n = iterate-suc k g (g n)

iterate-lt : (k n : ℕ) → n < 2 ^ 128 → iterate k gost_r n < 2 ^ 128
iterate-lt zero n h = h
iterate-lt (suc k) n h = iterate-lt k (gost_r n) (gost_r-lt n)

undo_iterate : (k n : ℕ) → n < 2 ^ 128 → iterate k gost_r_inv (iterate k gost_r n) ≡ n
undo_iterate zero n h = refl
undo_iterate (suc k) n h =
    ap (λ t. iterate k gost_r_inv (gost_r_inv t)) (iterate-suc k gost_r n)
    ∙ ap (iterate k gost_r_inv) (gost_r_inv-gost_r (iterate k gost_r n) (iterate-lt k n h))
    ∙ undo_iterate k n h

pub gost_l-lt : (n : ℕ) → n < 2 ^ 128 → gost_l n < 2 ^ 128
unfolding gost_l
gost_l-lt n h = iterate-lt 16 n h

-- The inverse transformation undoes the linear transformation on every block.
pub gost_l_inv-gost_l : (n : ℕ) → n < 2 ^ 128 → gost_l_inv (gost_l n) ≡ n
unfolding gost_l gost_l_inv
gost_l_inv-gost_l n h = undo_iterate 16 n h
