-- ===== src/Kuznyechik/Rows/Boxes.antt =====
-- The byte tables `s` and `is`, and what a substitution does byte by byte.
use kubebao.Common.{
  ℕ, zero, suc, ◌+◌, ◌*◌, ◌/◌, ◌^◌, ◌≤◌, ◌<◌, Bool, true, ◌≡◌, refl, sym, ap, ap₂, ◌∙◌, subst,
  arith, ◌==◌, if◌then◌else◌, holds_below, ==_iff, Bool-cases, inl, inr, false, eq_below,
  test_of_holds,
}
use native.Mathlib.Nat.{pow-le-pow_right}
use kubebao.Bits.Xor.{◌⊕◌, zero-xor, xor-zero, xor-lt}
use kubebao.Bits.Linear.{IsLinear, basis, compose-IsLinear, xor-IsLinear, mul-IsLinear, linear_ext}
use kubebao.Kuznyechik.Tables.{s_table, is_table, byte_entry}
use kubebao.Kuznyechik.Cipher.{plain_index}
use kubebao.Kuznyechik.Gost.{byte, substitute, gost_s, gost_s_inv, pi_table}
use kubebao.Kuznyechik.Gost.Linear.{byte-IsLinear}

pub is-s : (v : ℕ) → v < 256 → byte_entry is_table (byte_entry s_table v) ≡ v
unfolding holds_below s_table is_table
is-s = eq_below 256 (λ v. byte_entry is_table (byte_entry s_table v)) (λ v. v) refl

pub s-is : (v : ℕ) → v < 256 → byte_entry s_table (byte_entry is_table v) ≡ v
unfolding holds_below s_table is_table
s-is = eq_below 256 (λ v. byte_entry s_table (byte_entry is_table v)) (λ v. v) refl

s_small : (v : ℕ) → v < 256 → byte_entry s_table v / 2 ^ 8 ≡ 0
unfolding holds_below s_table
s_small = eq_below 256 (λ v. byte_entry s_table v / 2 ^ 8) (λ v. 0) refl

is_small : (v : ℕ) → v < 256 → byte_entry is_table v / 2 ^ 8 ≡ 0
unfolding holds_below is_table
is_small = eq_below 256 (λ v. byte_entry is_table v / 2 ^ 8) (λ v. 0) refl

pub s-lt : (v : ℕ) → v < 256 → byte_entry s_table v < 2 ^ 8
s-lt v h = omega (arith, s_small v h)

pub is-lt : (v : ℕ) → v < 256 → byte_entry is_table v < 2 ^ 8
is-lt v h = omega (arith, is_small v h)

-- A byte put at place i is read back there, and nowhere else.
place_test : ℕ → ℕ → ℕ → Bool
unfolding byte
place_test i j v = byte j (v * 2 ^ (8 * i)) == (if i == j then v else 0)

place_tests : holds_below 16 (λ i. holds_below 16 (λ j. holds_below 256 (place_test i j))) ≡ true
unfolding holds_below place_test
place_tests = refl

byte-place :
    (i j v : ℕ) → i < 16 → j < 16 → v < 256 → byte j (v * 2 ^ (8 * i)) ≡ (if i == j then v else 0)
unfolding place_test
byte-place i j v p q r = (==_iff (byte j (v * 2 ^ (8 * i))) (if i == j then v else 0)).0 (
    test_of_holds 256 (place_test i j) v
      (test_of_holds 16 (λ b. holds_below 256 (place_test i b)) j
        (test_of_holds 16 (λ a. holds_below 16 (λ b. holds_below 256 (place_test a b))) i
          place_tests p)
        q)
      r)

module _ (h : ℕ → ℕ) (small : (v : ℕ) → v < 256 → h v < 2 ^ 8) where
  -- The term at place i, read at place j.
  head_byte :
      (i j n : ℕ)
      → i < 16
      → j < 16
      → byte j (h (byte i n) * 2 ^ (8 * i)) ≡ (if i == j then h (byte i n) else 0)
  head_byte i j n p q =
      byte-place i j (h (byte i n)) p q (small (byte i n) (unfold byte in omega arith))

  head_elsewhere :
      (i j n : ℕ) → i < 16 → j < 16 → (i == j) ≡ false → byte j (h (byte i n) * 2 ^ (8 * i)) ≡ 0
  head_elsewhere i j n p q e = head_byte i j n p q ∙ ap (λ b. if b then h (byte i n) else 0) e

  head_here :
      (i j n : ℕ)
      → i < 16
      → j < 16
      → (i == j) ≡ true
      → byte j (h (byte i n) * 2 ^ (8 * i)) ≡ h (byte j n)
  head_here i j n p q e =
      head_byte i j n p q
      ∙ ap (λ b. if b then h (byte i n) else 0) e
      ∙ ap (λ t. h (byte t n)) ((==_iff i j).0 e)

  -- The bytes below the first one that is substituted are empty.
  byte-substitute_below : (k i j n : ℕ) → i + k ≤ 16 → j < i → byte j (substitute h k i n) ≡ 0
  unfolding substitute
  byte-substitute_below zero i j n fits below = unfold byte in omega arith
  byte-substitute_below (suc k) i j n fits below =
      byte-IsLinear j (h (byte i n) * 2 ^ (8 * i)) (substitute h k (suc i) n)
      ∙ ap₂ (λ a b. a ⊕ b) (head_elsewhere i j n (omega arith) (omega arith) (ground arith))
          (byte-substitute_below k (suc i) j n (omega arith) (omega arith))
      ∙ zero-xor 0

  -- Byte j of the substituted block is the substitute of byte j.
  pub byte-substitute :
      (k i j n : ℕ) → i + k ≤ 16 → i ≤ j → j < i + k → byte j (substitute h k i n) ≡ h (byte j n)
  unfolding substitute
  byte-substitute zero i j n fits low high = absurd (omega arith)
  byte-substitute (suc k) i j n fits low high =
      byte-IsLinear j (h (byte i n) * 2 ^ (8 * i)) (substitute h k (suc i) n)
      ∙ elim (Bool-cases (i == j)) [
        | inl here ↦
            ap₂ (λ a b. a ⊕ b) (head_here i j n (omega arith) (omega arith) here)
              (byte-substitute_below k (suc i) j n (omega arith) (ground arith))
            ∙ xor-zero (h (byte j n))
        | inr later ↦
            ap₂ (λ a b. a ⊕ b) (head_elsewhere i j n (omega arith) (omega arith) later)
              (byte-substitute k (suc i) j n (omega arith) (ground arith) (omega arith))
            ∙ zero-xor (h (byte j n))
      ]

-- A substitution is determined by what it does at the bytes of the block.
pub substitute_ext :
    (h h' : ℕ → ℕ) (k i n n' : ℕ)
    → ((j : ℕ) → i ≤ j → j < i + k → h (byte j n) ≡ h' (byte j n'))
    → substitute h k i n ≡ substitute h' k i n'
unfolding substitute
substitute_ext h h' zero i n n' same = refl
substitute_ext h h' (suc k) i n n' same =
    ap₂ (λ a b. a * 2 ^ (8 * i) ⊕ b) (same i (omega arith) (omega arith))
      (substitute_ext h h' k (suc i) n n' (λ j p q. same j (omega arith) (omega arith)))

pub place-IsLinear : (k i : ℕ) → IsLinear (substitute plain_index k i)
unfolding substitute
place-IsLinear zero i = λ a b. sym (zero-xor 0)
place-IsLinear (suc k) i =
    xor-IsLinear (λ n. byte i n * 2 ^ (8 * i)) (substitute plain_index k (suc i))
      (compose-IsLinear (λ v. v * 2 ^ (8 * i)) (byte i) (mul-IsLinear (8 * i)) (byte-IsLinear i))
      (place-IsLinear k (suc i))

-- A block is the sum of its bytes in their places.
pub substitute-plain : (n : ℕ) → n < 2 ^ 128 → substitute plain_index 16 0 n ≡ n
unfolding substitute basis
substitute-plain n h =
    linear_ext 128 (substitute plain_index 16 0) (λ x. x) (place-IsLinear 16 0) (λ a b. refl) refl n
      h

undo_bytes :
    (h h' : ℕ → ℕ)
    → ((v : ℕ) → v < 256 → h v < 2 ^ 8)
    → ((v : ℕ) → v < 256 → h' (h v) ≡ v)
    → (n : ℕ) → n < 2 ^ 128
    → substitute h' 16 0 (substitute h 16 0 n) ≡ n
undo_bytes h h' small undo n fits =
    substitute_ext h' plain_index 16 0 (substitute h 16 0 n) n (λ j p q.
      ap h' (byte-substitute h small 16 0 j n (omega arith) p q)
      ∙ undo (byte j n) (unfold byte in omega arith))
    ∙ substitute-plain n fits

-- The inverse substitution undoes the substitution on every block.
-- The table `s` of the code is the one that the standard lists.
s_table-pi_table : s_table ≡ pi_table
unfolding s_table pi_table
s_table-pi_table = refl

pub gost_s-s_table : (n : ℕ) → gost_s n ≡ substitute (byte_entry s_table) 16 0 n
unfolding gost_s
gost_s-s_table n = ap (λ t. substitute (byte_entry t) 16 0 n) (sym s_table-pi_table)

pub gost_s_inv-gost_s : (n : ℕ) → n < 2 ^ 128 → gost_s_inv (gost_s n) ≡ n
unfolding gost_s_inv
gost_s_inv-gost_s n h =
    ap (λ m. substitute (byte_entry is_table) 16 0 m) (gost_s-s_table n)
    ∙ undo_bytes (byte_entry s_table) (byte_entry is_table) s-lt is-s n h

small_times : (a p : ℕ) → a < 256 → p ≤ 2 ^ 120 → a * p < 2 ^ 128
small_times a p h k = grind arith

pub substitute-lt :
    (h : ℕ → ℕ)
    → ((v : ℕ) → v < 256 → h v < 2 ^ 8)
    → (k i n : ℕ) → i + k ≤ 16
    → substitute h k i n < 2 ^ 128
unfolding substitute byte
substitute-lt h small zero i n fits = omega arith
substitute-lt h small (suc k) i n fits =
    xor-lt 128 (h (byte i n) * 2 ^ (8 * i)) (substitute h k (suc i) n)
      (small_times (h (byte i n)) (2 ^ (8 * i)) (small (byte i n) (omega arith))
        (pow-le-pow_right {n = 2} (omega arith) {i = 8 * i} {j = 120} (omega arith)))
      (substitute-lt h small k (suc i) n (omega arith))

pub gost_s-lt : (n : ℕ) → gost_s n < 2 ^ 128
gost_s-lt n =
    subst (λ m. m < 2 ^ 128) (sym (gost_s-s_table n))
      (substitute-lt (byte_entry s_table) s-lt 16 0 n (omega arith))
