-- ===== src/Kuznyechik/Tables.antt =====
-- internal/kuznyechik/tables.go: the tables, one module for each row, and the reads from them.
pub mod T0
pub mod T1
pub mod T2
pub mod T3
pub mod T4
pub mod T5
pub mod T6
pub mod T7
pub mod T8
pub mod T9
pub mod T10
pub mod T11
pub mod T12
pub mod T13
pub mod T14
pub mod T15
pub mod It0
pub mod It1
pub mod It2
pub mod It3
pub mod It4
pub mod It5
pub mod It6
pub mod It7
pub mod It8
pub mod It9
pub mod It10
pub mod It11
pub mod It12
pub mod It13
pub mod It14
pub mod It15
pub mod S
pub mod Is
pub mod C
use T0.{t_row0}
use T1.{t_row1}
use T2.{t_row2}
use T3.{t_row3}
use T4.{t_row4}
use T5.{t_row5}
use T6.{t_row6}
use T7.{t_row7}
use T8.{t_row8}
use T9.{t_row9}
use T10.{t_row10}
use T11.{t_row11}
use T12.{t_row12}
use T13.{t_row13}
use T14.{t_row14}
use T15.{t_row15}
use It0.{it_row0}
use It1.{it_row1}
use It2.{it_row2}
use It3.{it_row3}
use It4.{it_row4}
use It5.{it_row5}
use It6.{it_row6}
use It7.{it_row7}
use It8.{it_row8}
use It9.{it_row9}
use It10.{it_row10}
use It11.{it_row11}
use It12.{it_row12}
use It13.{it_row13}
use It14.{it_row14}
use It15.{it_row15}
unfoldable pub use S.{s_table}
unfoldable pub use Is.{is_table}
unfoldable pub use C.{c_table}
use kubebao.Common.{ℕ, List, [], ◌∷◌, ◌%◌, ◌^◌, get_or}

unfoldable pub t_table : List (List (ℕ × ℕ))
unfolding t_row0 t_row1 t_row2 t_row3 t_row4 t_row5 t_row6 t_row7 t_row8 t_row9 t_row10 t_row11
    t_row12 t_row13 t_row14 t_row15
t_table =
    t_row0 ∷ t_row1 ∷ t_row2 ∷ t_row3 ∷ t_row4 ∷ t_row5 ∷ t_row6 ∷ t_row7 ∷ t_row8 ∷ t_row9
    ∷ t_row10 ∷ t_row11 ∷ t_row12 ∷ t_row13 ∷ t_row14 ∷ t_row15 ∷ []

unfoldable pub it_table : List (List (ℕ × ℕ))
unfolding it_row0 it_row1 it_row2 it_row3 it_row4 it_row5 it_row6 it_row7 it_row8 it_row9 it_row10
    it_row11 it_row12 it_row13 it_row14 it_row15
it_table =
    it_row0 ∷ it_row1 ∷ it_row2 ∷ it_row3 ∷ it_row4 ∷ it_row5 ∷ it_row6 ∷ it_row7 ∷ it_row8
    ∷ it_row9 ∷ it_row10 ∷ it_row11 ∷ it_row12 ∷ it_row13 ∷ it_row14 ∷ it_row15 ∷ []

-- `uint8(x)`, the index type of every read below.
abbrev pub uint8 : ℕ → ℕ
uint8 x = x % 2 ^ 8

-- `table[i][v]` and `s[v]`. The indices of the source are in range: i < 16 is written out in it,
-- and v is a byte.
abbrev pub entry : List (List (ℕ × ℕ)) → ℕ → ℕ → ℕ × ℕ
entry table i v = get_or (get_or table i []) v (0, 0)

abbrev pub byte_entry : List ℕ → ℕ → ℕ
byte_entry table v = get_or table v 0
