-- ===== src/Kuznyechik/Rows/Test.antt =====
-- A test of one row of a table against a linear transformation, and what the test shows.
use kubebao.Common.{
  ℕ, ◌*◌, ◌/◌, ◌%◌, ◌^◌, ◌<◌, Bool, true, ◌&&◌, List, [], ◌∷◌, suc, ◌≡◌, sym, ap, ◌∙◌, arith, ◌==◌,
  holds_below, test_of_holds, get_or,
}
use kubebao.Bits.Linear.{IsLinear, combine, basis, combine-basis, compose-IsLinear, mul-IsLinear}
use kubebao.Kuznyechik.Cipher.{Words, first, second}
use kubebao.Kuznyechik.Mix.{RowsMatch}

-- The values at the eight bits of byte i of a block.
unfoldable pub byte_basis : (ℕ → ℕ) → ℕ → List ℕ
unfolding basis
byte_basis g i = basis 8 (λ w. g (w * 2 ^ (8 * i)))

entry_test : ℕ → Words → ℕ → Bool
entry_test n e byte = (byte / 256 == 0) && ((e.0 == n % 2 ^ 64) && (e.1 == n / 2 ^ 64))

-- At every byte v the entry at `via v` is the combination of the given values at `h v`.
unfoldable pub row_test : (ℕ → ℕ) → (ℕ → ℕ) → List ℕ → List Words → Bool
unfolding holds_below combine entry_test
row_test via h values row =
    holds_below 256 (λ v. entry_test (combine values (h v)) (get_or row (via v) (0, 0)) (h v))

entry_test_sound :
    (n : ℕ) (e : Words) (byte : ℕ)
    → entry_test n e byte ≡ true
    → (byte < 256) × (e.0 ≡ n % 2 ^ 64) × (e.1 ≡ n / 2 ^ 64)
unfolding entry_test
entry_test_sound n e byte passed = ground arith

module _ (g via h : ℕ → ℕ) (i : ℕ) (row : List Words) (lin : IsLinear g) where
  placed-IsLinear : IsLinear (λ w. g (w * 2 ^ (8 * i)))
  placed-IsLinear = compose-IsLinear g (λ w. w * 2 ^ (8 * i)) lin (mul-IsLinear (8 * i))

  -- A row that passes has the two words of the transformed byte at every index.
  pub row_test_sound :
      row_test via h (byte_basis g i) row ≡ true
      → (v : ℕ) → v < 256
      → ((get_or row (via v) (0, 0)).0 ≡ g (h v * 2 ^ (8 * i)) % 2 ^ 64)
        × ((get_or row (via v) (0, 0)).1 ≡ g (h v * 2 ^ (8 * i)) / 2 ^ 64)
  unfolding row_test entry_test byte_basis
  row_test_sound passed v below =
      let cell =
        entry_test_sound (combine (byte_basis g i) (h v)) (get_or row (via v) (0, 0)) (h v) (
          test_of_holds 256
            (λ v. entry_test (combine (byte_basis g i) (h v)) (get_or row (via v) (0, 0)) (h v)) v
            passed below) in
      let same = combine-basis 8 (λ w. g (w * 2 ^ (8 * i))) placed-IsLinear (h v) cell.0 in
      (cell.1 ∙ ap (λ t. t % 2 ^ 64) (sym same), cell.2 ∙ ap (λ t. t / 2 ^ 64) (sym same))

module _ (g via h : ℕ → ℕ) (lin : IsLinear g) where
  -- The rows from byte i on pass their tests.
  abbrev pub Pass : List (List Words) → ℕ → Type 0
  Pass [] i = Unit {0}
  Pass (row ∷ rows) i = (row_test via h (byte_basis g i) row ≡ true) × Pass rows (suc i)

  pub Pass-first :
      (rows : List (List Words)) (i : ℕ)
      → Pass rows i
      → RowsMatch via first (λ x. g x % 2 ^ 64) h rows i
  Pass-first [] i p = tt
  Pass-first (row ∷ rows) i p =
      (λ v below. (row_test_sound g via h i row lin p.0 v below).0, Pass-first rows (suc i) p.1)

  pub Pass-second :
      (rows : List (List Words)) (i : ℕ)
      → Pass rows i
      → RowsMatch via second (λ x. g x / 2 ^ 64) h rows i
  Pass-second [] i p = tt
  Pass-second (row ∷ rows) i p =
      (λ v below. (row_test_sound g via h i row lin p.0 v below).1, Pass-second rows (suc i) p.1)
