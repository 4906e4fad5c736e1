-- ===== src/Kuznyechik/Halves.antt =====
-- The substitution in the two words of a block, and `isi`.
use native.Mathlib.Nat.{pow-le-pow_right, mod-eq_of_lt}
use native.Mathlib.Numerals.{towards_suc}
use kubebao.Common.{
  ℕ, zero, suc, ◌+◌, ◌*◌, ◌/◌, ◌%◌, ◌^◌, ◌≤◌, ◌<◌, bit_or, ◌≡◌, refl, sym, ap, ap₂, ◌∙◌, arith,
}
use kubebao.Bits.Xor.{◌⊕◌, zero-xor, xor_assoc, xor-zero}
use kubebao.Bits.Shift.{or_fields, xor_fields}
use kubebao.Bits.Linear.{basis, linear_ext}
use kubebao.Kuznyechik.Tables.{is_table, s_table, byte_entry}
use kubebao.Kuznyechik.Cipher.{Words, isi_loop, isi, plain_index}
use kubebao.Kuznyechik.Gost.{byte, substitute, gost_s}
use kubebao.Kuznyechik.Mix.{IsWords, join, split}
use kubebao.Kuznyechik.Rows.Boxes.{
  gost_s-s_table, substitute_ext, place-IsLinear, byte-substitute, s-lt, is-lt, is-s,
}

power_step : (j : ℕ) → 2 ^ (8 * suc j) ≡ 2 ^ (8 * j) * 256
power_step j = ap (λ t. 2 ^ t) place_next ∙ simp towards_suc (omega arith)
  where
    place_next : 8 * suc j ≡ 8 * j + 8
    place_next = omega arith

fits_next : (res b p : ℕ) → res < p → b < 256 → res + b * p < p * 256
fits_next res b p h k = grind arith

fits_word : (b p : ℕ) → b < 256 → p ≤ 2 ^ 56 → b * p < 2 ^ 64
fits_word b p h k = grind arith

-- One round: the byte lands above what is there.
isi_or :
    (j b res : ℕ)
    → j < 8
    → b < 256
    → res < 2 ^ (8 * j)
    → bit_or res (b * 2 ^ (8 * j) % 2 ^ 64) ≡ res + b * 2 ^ (8 * j)
isi_or j b res place byte_range small =
    ap (bit_or res) (
      mod-eq_of_lt (
        fits_word b (2 ^ (8 * j)) byte_range
          (pow-le-pow_right {n = 2} (omega arith) {i = 8 * j} {j = 56} (omega arith))))
    ∙ or_fields (8 * j) b res small

-- The loop writes disjoint bytes, so its `|=` is a sum of placed bytes.
isi_loop-substitute :
    (k j val res : ℕ)
    → j + k ≤ 8
    → res < 2 ^ (8 * j)
    → isi_loop k (8 * j) val res ≡ res ⊕ substitute (byte_entry is_table) k j val
unfolding isi_loop substitute byte
isi_loop-substitute zero j val res fits small = sym (xor-zero res)
isi_loop-substitute (suc k) j val res fits small =
    ap₂ (λ i r. isi_loop k i val r) next (isi_or j b res (omega arith) b_range small)
    ∙ isi_loop-substitute k (suc j) val (res + b * 2 ^ (8 * j)) (omega arith)
        (rw power_step (fits_next res b (2 ^ (8 * j)) small b_range))
    ∙ ap (λ t. t ⊕ later) (sym (xor_fields (8 * j) b res small))
    ∙ xor_assoc res (b * 2 ^ (8 * j)) later
  where
    b : ℕ
    b = byte_entry is_table (byte j val)

    b_range : b < 256
    b_range = is-lt (byte j val) (omega arith)

    later : ℕ
    later = substitute (byte_entry is_table) k (suc j) val

    next : 8 * j + 8 ≡ 8 * suc j
    next = omega arith

pub isi-substitute : (val : ℕ) → isi val ≡ substitute (byte_entry is_table) 8 0 val
unfolding isi
isi-substitute val =
    isi_loop-substitute 8 0 val 0 (omega arith) (omega arith)
    ∙ zero-xor (substitute (byte_entry is_table) 8 0 val)

below_eight :
    (P : ℕ → Type 0) → P 0 → P 1 → P 2 → P 3 → P 4 → P 5 → P 6 → P 7 → (j : ℕ) → j < 8 → P j
below_eight P p0 p1 p2 p3 p4 p5 p6 p7 zero h = p0
below_eight P p0 p1 p2 p3 p4 p5 p6 p7 (suc zero) h = p1
below_eight P p0 p1 p2 p3 p4 p5 p6 p7 (suc (suc zero)) h = p2
below_eight P p0 p1 p2 p3 p4 p5 p6 p7 (suc (suc (suc zero))) h = p3
below_eight P p0 p1 p2 p3 p4 p5 p6 p7 (suc (suc (suc (suc zero)))) h = p4
below_eight P p0 p1 p2 p3 p4 p5 p6 p7 (suc (suc (suc (suc (suc zero))))) h = p5
below_eight P p0 p1 p2 p3 p4 p5 p6 p7 (suc (suc (suc (suc (suc (suc zero)))))) h = p6
below_eight P p0 p1 p2 p3 p4 p5 p6 p7 (suc (suc (suc (suc (suc (suc (suc zero))))))) h = p7
below_eight P p0 p1 p2 p3 p4 p5 p6 p7 (suc (suc (suc (suc (suc (suc (suc (suc j)))))))) h =
    absurd (omega arith)

-- The bytes of the lower and of the upper word of a block.
byte-low : (n j : ℕ) → j < 8 → byte j (n % 2 ^ 64) ≡ byte j n
unfolding byte
byte-low n =
    below_eight (λ j. byte j (n % 2 ^ 64) ≡ byte j n) (omega arith) (omega arith) (omega arith)
      (omega arith) (omega arith) (omega arith) (omega arith) (omega arith)

byte-high : (n j : ℕ) → j < 8 → byte j (n / 2 ^ 64) ≡ byte (j + 8) n
unfolding byte
byte-high n =
    below_eight (λ j. byte j (n / 2 ^ 64) ≡ byte (j + 8) n) (omega arith) (omega arith)
      (omega arith) (omega arith) (omega arith) (omega arith) (omega arith) (omega arith)

word-plain : (x : ℕ) → x < 2 ^ 64 → substitute plain_index 8 0 x ≡ x
unfolding substitute basis
word-plain x h =
    linear_ext 64 (substitute plain_index 8 0) (λ v. v) (place-IsLinear 8 0) (λ a b. refl) refl x h

-- If the bytes of a word are the substitutes of another's, `isi` gives that other back.
isi_undo :
    (m x : ℕ)
    → x < 2 ^ 64
    → ((j : ℕ) → j < 8 → byte j m ≡ byte_entry s_table (byte j x))
    → isi m ≡ x
isi_undo m x fits same =
    isi-substitute m
    ∙ substitute_ext (byte_entry is_table) plain_index 8 0 m x (λ j p q.
      ap (byte_entry is_table) (same j (omega arith))
      ∙ is-s (byte j x) (unfold byte in omega arith))
    ∙ word-plain x fits

-- The two words of the substituted block.
abbrev pub sub_words : Words → Words
sub_words x = split (gost_s (join x))

byte-gost_s : (j n : ℕ) → j < 16 → byte j (gost_s n) ≡ byte_entry s_table (byte j n)
byte-gost_s j n h =
    ap (byte j) (gost_s-s_table n)
    ∙ byte-substitute (byte_entry s_table) s-lt 16 0 j n (omega arith) (omega arith) h

pub isi-first : (x : Words) → IsWords x → isi (sub_words x).0 ≡ x.0
isi-first x ok = isi_undo (sub_words x).0 x.0 ok.0 (λ j h.
    byte-low (gost_s (join x)) j h
    ∙ byte-gost_s j (join x) (omega arith)
    ∙ ap (byte_entry s_table) (sym (byte-low (join x) j h) ∙ ap (byte j) (omega arith)))

pub isi-second : (x : Words) → IsWords x → isi (sub_words x).1 ≡ x.1
isi-second x ok = isi_undo (sub_words x).1 x.1 ok.1 (λ j h.
    byte-high (gost_s (join x)) j h
    ∙ byte-gost_s (j + 8) (join x) (omega arith)
    ∙ ap (byte_entry s_table) (sym (byte-high (join x) j h) ∙ ap (byte j) (omega arith)))
