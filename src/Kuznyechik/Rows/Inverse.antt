-- ===== src/Kuznyechik/Rows/Inverse.antt =====
-- The rows of `it` beside the inverse of L.
use kubebao.Common.{
  ℕ, ◌%◌, ◌/◌, ◌^◌, ◌<◌, true, List, [], ◌∷◌, ◌≡◌, refl, sym, ap, ap₂, ◌∙◌, suc, get_or,
}
use kubebao.Bits.Linear.{pick, compose-IsLinear, mod-IsLinear, div-IsLinear}
use kubebao.Kuznyechik.Tables.{s_table, is_table, it_table, byte_entry}
use kubebao.Kuznyechik.Tables.It0.{it_row0}
use kubebao.Kuznyechik.Tables.It1.{it_row1}
use kubebao.Kuznyechik.Tables.It2.{it_row2}
use kubebao.Kuznyechik.Tables.It3.{it_row3}
use kubebao.Kuznyechik.Tables.It4.{it_row4}
use kubebao.Kuznyechik.Tables.It5.{it_row5}
use kubebao.Kuznyechik.Tables.It6.{it_row6}
use kubebao.Kuznyechik.Tables.It7.{it_row7}
use kubebao.Kuznyechik.Tables.It8.{it_row8}
use kubebao.Kuznyechik.Tables.It9.{it_row9}
use kubebao.Kuznyechik.Tables.It10.{it_row10}
use kubebao.Kuznyechik.Tables.It11.{it_row11}
use kubebao.Kuznyechik.Tables.It12.{it_row12}
use kubebao.Kuznyechik.Tables.It13.{it_row13}
use kubebao.Kuznyechik.Tables.It14.{it_row14}
use kubebao.Kuznyechik.Tables.It15.{it_row15}
use kubebao.Kuznyechik.Gost.{gost_l_inv, gost_s_inv, substitute}
use kubebao.Kuznyechik.Cipher.{Words, first, second, ils, ilss, plain_index, s_index}
use kubebao.Kuznyechik.Mix.{mix-substitute, RowsMatch, IsWords, join, join-lt, split}
use kubebao.Kuznyechik.Gost.Linear.{gost_l_inv-IsLinear}
use kubebao.Kuznyechik.Rows.Boxes.{s-is, is-lt, substitute-plain}
use kubebao.Kuznyechik.Rows.Test.{row_test, byte_basis, Pass, Pass-first, Pass-second}

it_row0_test : row_test s_index plain_index (byte_basis gost_l_inv 0) it_row0 ≡ true
unfolding row_test byte_basis gost_l_inv s_index s_table it_row0 pick
it_row0_test = refl

it_row1_test : row_test s_index plain_index (byte_basis gost_l_inv 1) it_row1 ≡ true
unfolding row_test byte_basis gost_l_inv s_index s_table it_row1 pick
it_row1_test = refl

it_row2_test : row_test s_index plain_index (byte_basis gost_l_inv 2) it_row2 ≡ true
unfolding row_test byte_basis gost_l_inv s_index s_table it_row2 pick
it_row2_test = refl

it_row3_test : row_test s_index plain_index (byte_basis gost_l_inv 3) it_row3 ≡ true
unfolding row_test byte_basis gost_l_inv s_index s_table it_row3 pick
it_row3_test = refl

it_row4_test : row_test s_index plain_index (byte_basis gost_l_inv 4) it_row4 ≡ true
unfolding row_test byte_basis gost_l_inv s_index s_table it_row4 pick
it_row4_test = refl

it_row5_test : row_test s_index plain_index (byte_basis gost_l_inv 5) it_row5 ≡ true
unfolding row_test byte_basis gost_l_inv s_index s_table it_row5 pick
it_row5_test = refl

it_row6_test : row_test s_index plain_index (byte_basis gost_l_inv 6) it_row6 ≡ true
unfolding row_test byte_basis gost_l_inv s_index s_table it_row6 pick
it_row6_test = refl

it_row7_test : row_test s_index plain_index (byte_basis gost_l_inv 7) it_row7 ≡ true
unfolding row_test byte_basis gost_l_inv s_index s_table it_row7 pick
it_row7_test = refl

it_row8_test : row_test s_index plain_index (byte_basis gost_l_inv 8) it_row8 ≡ true
unfolding row_test byte_basis gost_l_inv s_index s_table it_row8 pick
it_row8_test = refl

it_row9_test : row_test s_index plain_index (byte_basis gost_l_inv 9) it_row9 ≡ true
unfolding row_test byte_basis gost_l_inv s_index s_table it_row9 pick
it_row9_test = refl

it_row10_test : row_test s_index plain_index (byte_basis gost_l_inv 10) it_row10 ≡ true
unfolding row_test byte_basis gost_l_inv s_index s_table it_row10 pick
it_row10_test = refl

it_row11_test : row_test s_index plain_index (byte_basis gost_l_inv 11) it_row11 ≡ true
unfolding row_test byte_basis gost_l_inv s_index s_table it_row11 pick
it_row11_test = refl

it_row12_test : row_test s_index plain_index (byte_basis gost_l_inv 12) it_row12 ≡ true
unfolding row_test byte_basis gost_l_inv s_index s_table it_row12 pick
it_row12_test = refl

it_row13_test : row_test s_index plain_index (byte_basis gost_l_inv 13) it_row13 ≡ true
unfolding row_test byte_basis gost_l_inv s_index s_table it_row13 pick
it_row13_test = refl

it_row14_test : row_test s_index plain_index (byte_basis gost_l_inv 14) it_row14 ≡ true
unfolding row_test byte_basis gost_l_inv s_index s_table it_row14 pick
it_row14_test = refl

it_row15_test : row_test s_index plain_index (byte_basis gost_l_inv 15) it_row15 ≡ true
unfolding row_test byte_basis gost_l_inv s_index s_table it_row15 pick
it_row15_test = refl

abbrev it_rows : List (List Words)
it_rows =
    it_row0 ∷ it_row1 ∷ it_row2 ∷ it_row3 ∷ it_row4 ∷ it_row5 ∷ it_row6 ∷ it_row7 ∷ it_row8
    ∷ it_row9 ∷ it_row10 ∷ it_row11 ∷ it_row12 ∷ it_row13 ∷ it_row14 ∷ it_row15 ∷ []

it_rows-Pass : Pass gost_l_inv s_index plain_index gost_l_inv-IsLinear it_rows 0
it_rows-Pass = (
  it_row0_test,
  (
    it_row1_test,
    (
      it_row2_test,
      (
        it_row3_test,
        (
          it_row4_test,
          (
            it_row5_test,
            (
              it_row6_test,
              (
                it_row7_test,
                (
                  it_row8_test,
                  (
                    it_row9_test,
                    (
                      it_row10_test,
                      (
                        it_row11_test,
                        (it_row12_test, (it_row13_test, (it_row14_test, (it_row15_test, tt)))),
                      ),
                    ),
                  ),
                ),
              ),
            ),
          ),
        ),
      ),
    ),
  ),
)

ilss-first :
    (x : Words)
    → x.0 < 2 ^ 64
    → (ilss x).0 ≡ gost_l_inv (substitute plain_index 16 0 (join x)) % 2 ^ 64
unfolding ilss it_table
ilss-first x low =
    mix-substitute s_index first it_row0 it_row1 it_row2 it_row3 it_row4 it_row5 it_row6 it_row7
      it_row8 it_row9 it_row10 it_row11 it_row12 it_row13 it_row14 it_row15
      (λ n. gost_l_inv n % 2 ^ 64) plain_index x
      (compose-IsLinear (λ n. n % 2 ^ 64) gost_l_inv (mod-IsLinear 64) gost_l_inv-IsLinear)
      (Pass-first gost_l_inv s_index plain_index gost_l_inv-IsLinear it_rows 0 it_rows-Pass) low

ilss-second :
    (x : Words)
    → x.0 < 2 ^ 64
    → (ilss x).1 ≡ gost_l_inv (substitute plain_index 16 0 (join x)) / 2 ^ 64
unfolding ilss it_table
ilss-second x low =
    mix-substitute s_index second it_row0 it_row1 it_row2 it_row3 it_row4 it_row5 it_row6 it_row7
      it_row8 it_row9 it_row10 it_row11 it_row12 it_row13 it_row14 it_row15
      (λ n. gost_l_inv n / 2 ^ 64) plain_index x
      (compose-IsLinear (λ n. n / 2 ^ 64) gost_l_inv (div-IsLinear 64) gost_l_inv-IsLinear)
      (Pass-second gost_l_inv s_index plain_index gost_l_inv-IsLinear it_rows 0 it_rows-Pass) low

-- On two 64-bit words `ilss`, which joins sixteen entries of the other table, is the inverse of
-- the linear transformation L.
pub ilss_lem : (x : Words) → IsWords x → ilss x ≡ split (gost_l_inv (join x))
ilss_lem x ok =
    ap₂ (λ (a b : ℕ). (a, b)) (ilss-first x ok.0) (ilss-second x ok.0)
    ∙ ap (λ n. split (gost_l_inv n)) (substitute-plain (join x) (join-lt x ok))

-- A row that is read through `s` is read directly at the byte that `is` names.
RowsMatch-is :
    (word : Words → ℕ) (g : ℕ → ℕ) (rows : List (List Words)) (i : ℕ)
    → RowsMatch s_index word g plain_index rows i
    → RowsMatch plain_index word g (byte_entry is_table) rows i
unfolding s_index
RowsMatch-is word g [] i m = tt
RowsMatch-is word g (row ∷ rows) i m = (
  λ v below.
      ap (λ t. word (get_or row t (0, 0))) (sym (s-is v below))
      ∙ m.0 (byte_entry is_table v) (is-lt v below),
  RowsMatch-is word g rows (suc i) m.1,
)

ils-first :
    (x : Words)
    → x.0 < 2 ^ 64
    → (ils x).0 ≡ gost_l_inv (substitute (byte_entry is_table) 16 0 (join x)) % 2 ^ 64
unfolding ils it_table
ils-first x low =
    mix-substitute plain_index first it_row0 it_row1 it_row2 it_row3 it_row4 it_row5 it_row6 it_row7
      it_row8 it_row9 it_row10 it_row11 it_row12 it_row13 it_row14 it_row15
      (λ n. gost_l_inv n % 2 ^ 64) (byte_entry is_table) x
      (compose-IsLinear (λ n. n % 2 ^ 64) gost_l_inv (mod-IsLinear 64) gost_l_inv-IsLinear)
      (RowsMatch-is first (λ n. gost_l_inv n % 2 ^ 64) it_rows 0
        (Pass-first gost_l_inv s_index plain_index gost_l_inv-IsLinear it_rows 0 it_rows-Pass))
      low

ils-second :
    (x : Words)
    → x.0 < 2 ^ 64
    → (ils x).1 ≡ gost_l_inv (substitute (byte_entry is_table) 16 0 (join x)) / 2 ^ 64
unfolding ils it_table
ils-second x low =
    mix-substitute plain_index second it_row0 it_row1 it_row2 it_row3 it_row4 it_row5 it_row6
      it_row7 it_row8 it_row9 it_row10 it_row11 it_row12 it_row13 it_row14 it_row15
      (λ n. gost_l_inv n / 2 ^ 64) (byte_entry is_table) x
      (compose-IsLinear (λ n. n / 2 ^ 64) gost_l_inv (div-IsLinear 64) gost_l_inv-IsLinear)
      (RowsMatch-is second (λ n. gost_l_inv n / 2 ^ 64) it_rows 0
        (Pass-second gost_l_inv s_index plain_index gost_l_inv-IsLinear it_rows 0 it_rows-Pass))
      low

-- `ils` is the inverse substitution followed by the inverse of L.
pub ils_lem : (x : Words) → x.0 < 2 ^ 64 → ils x ≡ split (gost_l_inv (gost_s_inv (join x)))
unfolding gost_s_inv
ils_lem x low = ap₂ (λ (a b : ℕ). (a, b)) (ils-first x low) (ils-second x low)
