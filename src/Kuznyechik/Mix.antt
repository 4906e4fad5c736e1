-- ===== src/Kuznyechik/Mix.antt =====
-- The sixteen-term lines of `ls`, `ils` and `ilss` as one sum over the rows of a table, and when such
-- a sum is a linear function of the substituted block.
use kubebao.Common.{
  ℕ, suc, ◌+◌, ◌*◌, ◌/◌, ◌%◌, ◌^◌, ◌<◌, List, [], ◌∷◌, ◌≡◌, refl, sym, ap, ap₂, ◌∙◌, arith, get_or,
  length,
}
use kubebao.Bits.Xor.{◌⊕◌, xor_assoc, xor_regroup, xor-zero, xor-lt}
use kubebao.Bits.Shift.{xor-mul, xor_fields}
use kubebao.Bits.Linear.{IsLinear, linear-zero}
use kubebao.Kuznyechik.Tables.{uint8}
use kubebao.Kuznyechik.Cipher.{Words, xor_words, mix}
use kubebao.Kuznyechik.Gost.{byte, substitute}

-- The block of two words, as one number, and back.
abbrev pub join : Words → ℕ
join x = x.0 + x.1 * 2 ^ 64

abbrev pub split : ℕ → Words
split n = (n % 2 ^ 64, n / 2 ^ 64)

abbrev pub IsWords : Words → Type 0
IsWords x = (x.0 < 2 ^ 64) × (x.1 < 2 ^ 64)

pub join-lt : (x : Words) → IsWords x → join x < 2 ^ 128
join-lt x h = omega arith

pub join-split : (n : ℕ) → join (split n) ≡ n
join-split n = omega arith

pub split-join : (x : Words) → x.0 < 2 ^ 64 → split (join x) ≡ x
split-join x h = ground arith

pub split-IsWords : (n : ℕ) → n < 2 ^ 128 → IsWords (split n)
split-IsWords n h = omega arith

pub xor_words-IsWords : (x k : Words) → IsWords x → IsWords k → IsWords (xor_words x k)
unfolding xor_words
xor_words-IsWords x k p q = (xor-lt 64 x.0 k.0 p.0 q.0, xor-lt 64 x.1 k.1 p.1 q.1)

-- Adding a round key to two words adds it to the block.
pub join-xor_words : (x k : Words) → IsWords x → IsWords k → join (xor_words x k) ≡ join x ⊕ join k
unfolding xor_words
join-xor_words x k p q =
    sym (xor_fields 64 (x.1 ⊕ k.1) (x.0 ⊕ k.0) (xor-lt 64 x.0 k.0 p.0 q.0))
    ∙ ap (λ t. (x.0 ⊕ k.0) ⊕ t) (xor-mul 64 x.1 k.1)
    ∙ xor_regroup x.0 k.0 (x.1 * 2 ^ 64) (k.1 * 2 ^ 64)
    ∙ ap₂ (λ a b. a ⊕ b) (xor_fields 64 x.1 x.0 p.0) (xor_fields 64 k.1 k.0 q.0)

-- A sum from the left, as the code writes it, and from the right.
xor_left : ℕ → List ℕ → ℕ
xor_left a [] = a
xor_left a (b ∷ bs) = xor_left (a ⊕ b) bs

xor_right : List ℕ → ℕ
xor_right [] = 0
xor_right (b ∷ bs) = b ⊕ xor_right bs

xor_left-eq : (a : ℕ) (bs : List ℕ) → xor_left a bs ≡ a ⊕ xor_right bs
unfolding xor_left xor_right
xor_left-eq a [] = sym (xor-zero a)
xor_left-eq a (b ∷ bs) = xor_left-eq (a ⊕ b) bs ∙ xor_assoc a b (xor_right bs)

-- The bytes of a block, as the code reads them off two words and as the standard numbers them.
word_bytes : Words → List ℕ
word_bytes x =
    uint8 (x.0 / 2 ^ 0)
    ∷ uint8 (x.0 / 2 ^ 8)
    ∷ uint8 (x.0 / 2 ^ 16)
    ∷ uint8 (x.0 / 2 ^ 24)
    ∷ uint8 (x.0 / 2 ^ 32)
    ∷ uint8 (x.0 / 2 ^ 40)
    ∷ uint8 (x.0 / 2 ^ 48)
    ∷ uint8 (x.0 / 2 ^ 56)
    ∷ uint8 (x.1 / 2 ^ 0)
    ∷ uint8 (x.1 / 2 ^ 8)
    ∷ uint8 (x.1 / 2 ^ 16)
    ∷ uint8 (x.1 / 2 ^ 24)
    ∷ uint8 (x.1 / 2 ^ 32)
    ∷ uint8 (x.1 / 2 ^ 40)
    ∷ uint8 (x.1 / 2 ^ 48)
    ∷ uint8 (x.1 / 2 ^ 56)
    ∷ []

block_bytes : ℕ → List ℕ
block_bytes n =
    byte 0 n
    ∷ byte 1 n
    ∷ byte 2 n
    ∷ byte 3 n
    ∷ byte 4 n
    ∷ byte 5 n
    ∷ byte 6 n
    ∷ byte 7 n
    ∷ byte 8 n
    ∷ byte 9 n
    ∷ byte 10 n
    ∷ byte 11 n
    ∷ byte 12 n
    ∷ byte 13 n
    ∷ byte 14 n
    ∷ byte 15 n
    ∷ []

bytes_eq : (x : Words) → x.0 < 2 ^ 64 → word_bytes x ≡ block_bytes (join x)
unfolding word_bytes block_bytes byte
bytes_eq x h = ap₂ ◌∷◌ (omega arith) (
    ap₂ ◌∷◌ (omega arith) (
      ap₂ ◌∷◌ (omega arith) (
        ap₂ ◌∷◌ (omega arith) (
          ap₂ ◌∷◌ (omega arith) (
            ap₂ ◌∷◌ (omega arith) (
              ap₂ ◌∷◌ (omega arith) (
                ap₂ ◌∷◌ (omega arith) (
                  ap₂ ◌∷◌ (omega arith) (
                    ap₂ ◌∷◌ (omega arith) (
                      ap₂ ◌∷◌ (omega arith) (
                        ap₂ ◌∷◌ (omega arith) (
                          ap₂ ◌∷◌ (omega arith) (
                            ap₂ ◌∷◌ (omega arith)
                              (ap₂ ◌∷◌ (omega arith) (ap₂ ◌∷◌ (omega arith) (refl))))))))))))))))

tail_of : List ℕ → List ℕ
tail_of [] = []
tail_of (b ∷ bytes) = bytes

module _ (via : ℕ → ℕ) (word : Words → ℕ) where
  -- The terms of the rows from byte i on.
  rolled : List (List Words) → ℕ → ℕ → ℕ
  rolled [] i n = 0
  rolled (row ∷ rows) i n = word (get_or row (via (byte i n)) (0, 0)) ⊕ rolled rows (suc i) n

  -- Each row from byte i on has the values of `g` at the byte, substituted by `h`, in its place.
  abbrev pub RowsMatch : (ℕ → ℕ) → (ℕ → ℕ) → List (List Words) → ℕ → Type 0
  RowsMatch g h [] i = Unit {0}
  RowsMatch g h (row ∷ rows) i =
      ((v : ℕ) → v < 256 → word (get_or row (via v) (0, 0)) ≡ g (h v * 2 ^ (8 * i)))
      × RowsMatch g h rows (suc i)

  rolled-substitute :
      (g h : ℕ → ℕ) (rows : List (List Words)) (i n : ℕ)
      → IsLinear g
      → RowsMatch g h rows i
      → rolled rows i n ≡ g (substitute h (length rows) i n)
  unfolding rolled substitute byte
  rolled-substitute g h [] i n lin m = sym (linear-zero g lin)
  rolled-substitute g h (row ∷ rows) i n lin m =
      ap₂ (λ a b. a ⊕ b) (m.0 (byte i n) (omega arith))
        (rolled-substitute g h rows (suc i) n lin m.1)
      ∙ sym (lin (h (byte i n) * 2 ^ (8 * i)) (substitute h (length rows) (suc i) n))

  -- The terms of the rows at the given bytes.
  columns : List (List Words) → List ℕ → List ℕ
  columns [] bytes = []
  columns (row ∷ rows) [] = []
  columns (row ∷ rows) (v ∷ bytes) = word (get_or row (via v) (0, 0)) ∷ columns rows bytes

  module _ (r0 r1 r2 r3 r4 r5 r6 r7 r8 r9 r10 r11 r12 r13 r14 r15 : List Words) where
    abbrev sixteen : List (List Words)
    sixteen =
        r0 ∷ r1 ∷ r2 ∷ r3 ∷ r4 ∷ r5 ∷ r6 ∷ r7 ∷ r8 ∷ r9 ∷ r10 ∷ r11 ∷ r12 ∷ r13 ∷ r14 ∷ r15 ∷ []

    mix-rolled :
        (x : Words) → x.0 < 2 ^ 64 → mix sixteen via word x.0 x.1 ≡ rolled sixteen 0 (join x)
    unfolding mix rolled columns xor_left xor_right word_bytes block_bytes tail_of
    mix-rolled x h =
        xor_left-eq (word (get_or r0 (via (uint8 (x.0 / 2 ^ 0))) (0, 0))) (
          columns
            (r1 ∷ r2 ∷ r3 ∷ r4 ∷ r5 ∷ r6 ∷ r7 ∷ r8 ∷ r9 ∷ r10 ∷ r11 ∷ r12 ∷ r13 ∷ r14 ∷ r15 ∷ [])
            (tail_of (word_bytes x)))
        ∙ ap (λ bytes. xor_right (columns sixteen bytes)) (bytes_eq x h)

    -- A line of the cipher over sixteen rows is a linear function of the substituted block.
    pub mix-substitute :
        (g h : ℕ → ℕ) (x : Words)
        → IsLinear g
        → RowsMatch g h sixteen 0
        → x.0 < 2 ^ 64
        → mix sixteen via word x.0 x.1 ≡ g (substitute h 16 0 (join x))
    mix-substitute g h x lin m low =
        mix-rolled x low ∙ rolled-substitute g h sixteen 0 (join x) lin m
