-- ===== src/Kuznyechik/Rows/Forward.antt =====
-- The rows of `t` beside the substitution and L.
use kubebao.Common.{ℕ, ◌%◌, ◌/◌, ◌^◌, ◌<◌, true, List, [], ◌∷◌, ◌≡◌, refl, sym, ap, ap₂, ◌∙◌}
use kubebao.Kuznyechik.Rows.Boxes.{gost_s-s_table}
use kubebao.Bits.Linear.{pick, compose-IsLinear, mod-IsLinear, div-IsLinear}
use kubebao.Kuznyechik.Tables.{s_table, t_table, byte_entry}
use kubebao.Kuznyechik.Tables.T0.{t_row0}
use kubebao.Kuznyechik.Tables.T1.{t_row1}
use kubebao.Kuznyechik.Tables.T2.{t_row2}
use kubebao.Kuznyechik.Tables.T3.{t_row3}
use kubebao.Kuznyechik.Tables.T4.{t_row4}
use kubebao.Kuznyechik.Tables.T5.{t_row5}
use kubebao.Kuznyechik.Tables.T6.{t_row6}
use kubebao.Kuznyechik.Tables.T7.{t_row7}
use kubebao.Kuznyechik.Tables.T8.{t_row8}
use kubebao.Kuznyechik.Tables.T9.{t_row9}
use kubebao.Kuznyechik.Tables.T10.{t_row10}
use kubebao.Kuznyechik.Tables.T11.{t_row11}
use kubebao.Kuznyechik.Tables.T12.{t_row12}
use kubebao.Kuznyechik.Tables.T13.{t_row13}
use kubebao.Kuznyechik.Tables.T14.{t_row14}
use kubebao.Kuznyechik.Tables.T15.{t_row15}
use kubebao.Kuznyechik.Gost.{gost_l, gost_s, substitute}
use kubebao.Kuznyechik.Cipher.{Words, first, second, ls, plain_index}
use kubebao.Kuznyechik.Mix.{mix-substitute, join, split}
use kubebao.Kuznyechik.Gost.Linear.{gost_l-IsLinear}
use kubebao.Kuznyechik.Rows.Test.{row_test, byte_basis, Pass, Pass-first, Pass-second}

t_row0_test : row_test plain_index (byte_entry s_table) (byte_basis gost_l 0) t_row0 ≡ true
unfolding row_test byte_basis gost_l s_table t_row0 pick
t_row0_test = refl

t_row1_test : row_test plain_index (byte_entry s_table) (byte_basis gost_l 1) t_row1 ≡ true
unfolding row_test byte_basis gost_l s_table t_row1 pick
t_row1_test = refl

t_row2_test : row_test plain_index (byte_entry s_table) (byte_basis gost_l 2) t_row2 ≡ true
unfolding row_test byte_basis gost_l s_table t_row2 pick
t_row2_test = refl

t_row3_test : row_test plain_index (byte_entry s_table) (byte_basis gost_l 3) t_row3 ≡ true
unfolding row_test byte_basis gost_l s_table t_row3 pick
t_row3_test = refl

t_row4_test : row_test plain_index (byte_entry s_table) (byte_basis gost_l 4) t_row4 ≡ true
unfolding row_test byte_basis gost_l s_table t_row4 pick
t_row4_test = refl

t_row5_test : row_test plain_index (byte_entry s_table) (byte_basis gost_l 5) t_row5 ≡ true
unfolding row_test byte_basis gost_l s_table t_row5 pick
t_row5_test = refl

t_row6_test : row_test plain_index (byte_entry s_table) (byte_basis gost_l 6) t_row6 ≡ true
unfolding row_test byte_basis gost_l s_table t_row6 pick
t_row6_test = refl

t_row7_test : row_test plain_index (byte_entry s_table) (byte_basis gost_l 7) t_row7 ≡ true
unfolding row_test byte_basis gost_l s_table t_row7 pick
t_row7_test = refl

t_row8_test : row_test plain_index (byte_entry s_table) (byte_basis gost_l 8) t_row8 ≡ true
unfolding row_test byte_basis gost_l s_table t_row8 pick
t_row8_test = refl

t_row9_test : row_test plain_index (byte_entry s_table) (byte_basis gost_l 9) t_row9 ≡ true
unfolding row_test byte_basis gost_l s_table t_row9 pick
t_row9_test = refl

t_row10_test : row_test plain_index (byte_entry s_table) (byte_basis gost_l 10) t_row10 ≡ true
unfolding row_test byte_basis gost_l s_table t_row10 pick
t_row10_test = refl

t_row11_test : row_test plain_index (byte_entry s_table) (byte_basis gost_l 11) t_row11 ≡ true
unfolding row_test byte_basis gost_l s_table t_row11 pick
t_row11_test = refl

t_row12_test : row_test plain_index (byte_entry s_table) (byte_basis gost_l 12) t_row12 ≡ true
unfolding row_test byte_basis gost_l s_table t_row12 pick
t_row12_test = refl

t_row13_test : row_test plain_index (byte_entry s_table) (byte_basis gost_l 13) t_row13 ≡ true
unfolding row_test byte_basis gost_l s_table t_row13 pick
t_row13_test = refl

t_row14_test : row_test plain_index (byte_entry s_table) (byte_basis gost_l 14) t_row14 ≡ true
unfolding row_test byte_basis gost_l s_table t_row14 pick
t_row14_test = refl

t_row15_test : row_test plain_index (byte_entry s_table) (byte_basis gost_l 15) t_row15 ≡ true
unfolding row_test byte_basis gost_l s_table t_row15 pick
t_row15_test = refl

abbrev t_rows : List (List Words)
t_rows =
    t_row0 ∷ t_row1 ∷ t_row2 ∷ t_row3 ∷ t_row4 ∷ t_row5 ∷ t_row6 ∷ t_row7 ∷ t_row8 ∷ t_row9
    ∷ t_row10 ∷ t_row11 ∷ t_row12 ∷ t_row13 ∷ t_row14 ∷ t_row15 ∷ []

t_rows-Pass : Pass gost_l plain_index (byte_entry s_table) gost_l-IsLinear t_rows 0
t_rows-Pass = (
  t_row0_test,
  (
    t_row1_test,
    (
      t_row2_test,
      (
        t_row3_test,
        (
          t_row4_test,
          (
            t_row5_test,
            (
              t_row6_test,
              (
                t_row7_test,
                (
                  t_row8_test,
                  (
                    t_row9_test,
                    (
                      t_row10_test,
                      (
                        t_row11_test,
                        (t_row12_test, (t_row13_test, (t_row14_test, (t_row15_test, tt)))),
                      ),
                    ),
                  ),
                ),
              ),
            ),
          ),
        ),
      ),
    ),
  ),
)

ls-first :
    (x : Words)
    → x.0 < 2 ^ 64
    → (ls x).0 ≡ gost_l (substitute (byte_entry s_table) 16 0 (join x)) % 2 ^ 64
unfolding ls t_table
ls-first x low =
    mix-substitute plain_index first t_row0 t_row1 t_row2 t_row3 t_row4 t_row5 t_row6 t_row7 t_row8
      t_row9 t_row10 t_row11 t_row12 t_row13 t_row14 t_row15 (λ n. gost_l n % 2 ^ 64)
      (byte_entry s_table) x
      (compose-IsLinear (λ n. n % 2 ^ 64) gost_l (mod-IsLinear 64) gost_l-IsLinear)
      (Pass-first gost_l plain_index (byte_entry s_table) gost_l-IsLinear t_rows 0 t_rows-Pass) low

ls-second :
    (x : Words)
    → x.0 < 2 ^ 64
    → (ls x).1 ≡ gost_l (substitute (byte_entry s_table) 16 0 (join x)) / 2 ^ 64
unfolding ls t_table
ls-second x low =
    mix-substitute plain_index second t_row0 t_row1 t_row2 t_row3 t_row4 t_row5 t_row6 t_row7 t_row8
      t_row9 t_row10 t_row11 t_row12 t_row13 t_row14 t_row15 (λ n. gost_l n / 2 ^ 64)
      (byte_entry s_table) x
      (compose-IsLinear (λ n. n / 2 ^ 64) gost_l (div-IsLinear 64) gost_l-IsLinear)
      (Pass-second gost_l plain_index (byte_entry s_table) gost_l-IsLinear t_rows 0 t_rows-Pass) low

-- If the first word is below 2^64, `ls`, which joins sixteen table entries, is the substitution of
-- the standard followed by its linear transformation L, which is defined byte by byte.
pub ls_lem : (x : Words) → x.0 < 2 ^ 64 → ls x ≡ split (gost_l (gost_s (join x)))
ls_lem x low =
    ap₂ (λ (a b : ℕ). (a, b)) (ls-first x low) (ls-second x low)
    ∙ ap (λ n. split (gost_l n)) (sym (gost_s-s_table (join x)))
