-- ===== src/Crypto/Cmac/Subkeys.antt =====
-- The subkeys of CMAC, with byte slices read as big-endian numbers.
use kubebao.Common.{
  ℕ, zero, suc, ◌+◌, ◌-◌, ◌*◌, ◌/◌, ◌^◌, ◌≤◌, ◌<◌, bit_and, bit_or, List, [], ◌∷◌, ◌≡◌, refl, sym,
  ap, ap₂, ◌∙◌, arith, ltb, leb, ◌==◌, if◌then◌else◌, length, get_or, holds_below, test_of_holds,
  true, false, ◌&&◌, ◌||◌, not, subst, Bool-cases, inl, inr,
}
use kubebao.Bits.Xor.{◌⊕◌, xor_regroup, xor-zero, xor-lt}
use native.Mathlib.Nat.{add_comm}
use kubebao.Bits.Shift.{xor-mul, xor_fields}
use kubebao.Kuznyechik.Tables.{uint8}
use kubebao.Kuznyechik.Bytes.{IsBytes, IsBlock, power_byte}
use kubebao.Crypto.Block.{Block, IsBlockCipher, xor_bytes, xor_bytes-IsBytes, length-xor_bytes}
use kubebao.Crypto.Cmac.{shift_left_one, reduce, rb128, zero_block, cmac_generate_subkeys}

-- The number of a byte slice, big end first.
unfoldable pub big_endian : List ℕ → ℕ
big_endian [] = 0
big_endian (b ∷ bs) = b * 2 ^ (8 * length bs) + big_endian bs

-- A doubled byte leaves its lowest bit free for the overflow below it.
or_table :
    holds_below 256 (λ b.
      bit_or (uint8 (b * 2 ^ 1)) 0 == uint8 (b * 2)
      && bit_or (uint8 (b * 2 ^ 1)) 1 == uint8 (b * 2) + 1)
    ≡ true
unfolding holds_below
or_table = refl

or_overflow : (b o : ℕ) → b < 256 → o ≤ 1 → bit_or (uint8 (b * 2 ^ 1)) o ≡ uint8 (b * 2) + o
or_overflow b zero h k = ground (
  arith,
  test_of_holds 256
      (λ x.
        bit_or (uint8 (x * 2 ^ 1)) 0 == uint8 (x * 2)
        && bit_or (uint8 (x * 2 ^ 1)) 1 == uint8 (x * 2) + 1)
      b or_table h,
)
or_overflow b (suc zero) h k = ground (
  arith,
  test_of_holds 256
      (λ x.
        bit_or (uint8 (x * 2 ^ 1)) 0 == uint8 (x * 2)
        && bit_or (uint8 (x * 2 ^ 1)) 1 == uint8 (x * 2) + 1)
      b or_table h,
)
or_overflow b (suc (suc o)) h k = absurd (omega arith)

overflow_bit : (src : List ℕ) → IsBytes src → (shift_left_one src).1 ≤ 1
unfolding shift_left_one
overflow_bit [] h = omega arith
overflow_bit (b ∷ src) h = omega arith

pub length-shift_left_one : (src : List ℕ) → length (shift_left_one src).0 ≡ length src
unfolding shift_left_one
length-shift_left_one [] = refl
length-shift_left_one (b ∷ src) = ap suc (length-shift_left_one src)

pub shift_left_one-IsBytes : (src : List ℕ) → IsBytes src → IsBytes (shift_left_one src).0
unfolding shift_left_one
shift_left_one-IsBytes [] h = tt
shift_left_one-IsBytes (b ∷ src) h = (
  omega (
    arith,
    or_overflow b (shift_left_one src).1 h.0 (overflow_bit src h.1),
    overflow_bit src h.1,
  ),
  shift_left_one-IsBytes src h.1,
)

carry_up :
    (u v o b d n p : ℕ)
    → u + v * 256 ≡ b * 2
    → d + o * p ≡ 2 * n
    → (u + o) * p + d + v * (p * 256) ≡ 2 * (b * p + n)
carry_up u v o b d n p e h = omega (arith, ap (λ t. t * p) e)

-- `shiftLeftOne` of a slice of bytes loses nothing: the shifted number and the overflow above it
-- are twice the number.
pub shift_left_one_lem :
    (src : List ℕ)
    → IsBytes src
    → big_endian (shift_left_one src).0 + (shift_left_one src).1 * 2 ^ (8 * length src)
      ≡ 2 * big_endian src
unfolding shift_left_one big_endian
shift_left_one_lem [] h = refl
shift_left_one_lem (b ∷ src) h =
    ap₂
      (λ x n.
        x * 2 ^ (8 * n)
        + big_endian (shift_left_one src).0
        + b / 2 ^ 7 * 2 ^ (8 * suc (length src)))
      (or_overflow b (shift_left_one src).1 h.0 (overflow_bit src h.1)) (length-shift_left_one src)
    ∙ ap
        (λ q.
          (uint8 (b * 2) + (shift_left_one src).1) * 2 ^ (8 * length src)
          + big_endian (shift_left_one src).0
          + b / 2 ^ 7 * q)
        (power_byte (length src))
    ∙ carry_up (uint8 (b * 2)) (b / 2 ^ 7) (shift_left_one src).1 b
        (big_endian (shift_left_one src).0) (big_endian src) (2 ^ (8 * length src)) (omega arith)
        (shift_left_one_lem src h.1)

big_endian-lt : (bs : List ℕ) → IsBytes bs → big_endian bs < 2 ^ (8 * length bs)
unfolding big_endian
big_endian-lt [] h = omega arith
big_endian-lt (b ∷ bs) h =
    rw (power_byte (length bs))
      (room b (2 ^ (8 * length bs)) (big_endian bs) h.0 (big_endian-lt bs h.1))
  where
    room : (x p n : ℕ) → x < 256 → n < p → x * p + n < p * 256
    room x p n small below = grind arith

-- Adding two slices byte by byte adds their numbers.
big_endian-xor_bytes :
    (a b : List ℕ)
    → length a ≡ length b
    → IsBytes a
    → IsBytes b
    → big_endian (xor_bytes a a b) ≡ big_endian a ⊕ big_endian b
unfolding big_endian xor_bytes
big_endian-xor_bytes [] [] e p q = sym (xor-zero 0)
big_endian-xor_bytes [] (y ∷ b) e p q = absurd (omega arith)
big_endian-xor_bytes (x ∷ a) [] e p q = absurd (omega arith)
big_endian-xor_bytes (x ∷ a) (y ∷ b) e p q =
    ap₂ (λ n t. (x ⊕ y) * 2 ^ (8 * n) + t) (length-xor_bytes a a b)
      (big_endian-xor_bytes a b (omega arith) p.1 q.1)
    ∙ fields (x ⊕ y) (big_endian a ⊕ big_endian b)
        (xor-lt (8 * length a) (big_endian a) (big_endian b) (big_endian-lt a p.1) b_fits)
    ∙ ap (λ t. (big_endian a ⊕ big_endian b) ⊕ t) (xor-mul (8 * length a) x y)
    ∙ xor_regroup (big_endian a) (big_endian b) (x * 2 ^ (8 * length a)) (y * 2 ^ (8 * length a))
    ∙ ap₂ (λ s t. s ⊕ t) (sym (fields x (big_endian a) (big_endian-lt a p.1)))
        (sym (fields y (big_endian b) b_fits) ∙ ap (λ n. y * 2 ^ (8 * n) + big_endian b) same)
  where
    same : length a ≡ length b
    same = omega arith

    b_fits : big_endian b < 2 ^ (8 * length a)
    b_fits = subst (λ n. big_endian b < 2 ^ (8 * n)) (sym same) (big_endian-lt b q.1)

    fields :
        (v r : ℕ) → r < 2 ^ (8 * length a) → v * 2 ^ (8 * length a) + r ≡ r ⊕ v * 2 ^ (8 * length a)
    fields v r fits = add_comm (v * 2 ^ (8 * length a)) r ∙ sym (xor_fields (8 * length a) v r fits)

-- Doubling modulo x^128 + x^7 + x^2 + x + 1.
abbrev pub double : ℕ → ℕ
double n = if ltb n (2 ^ 127) then 2 * n else (2 * n - 2 ^ 128) ⊕ 0x87

top_table :
    holds_below 256
      (λ b. (bit_and b 0x80 == 0) && ltb b 128 || not (bit_and b 0x80 == 0) && leb 128 b)
    ≡ true
unfolding holds_below
top_table = refl

top_bit : (b : ℕ) → b < 256 → (bit_and b 0x80 == 0) ≡ ltb b 128
top_bit b h = ground (
  arith,
  test_of_holds 256
      (λ b. (bit_and b 0x80 == 0) && ltb b 128 || not (bit_and b 0x80 == 0) && leb 128 b) b
      top_table h,
)

rb128-IsBlock : IsBlock rb128
rb128-IsBlock = omega arith

reduce-IsBlock : (top : ℕ) (k : List ℕ) → IsBlock k → IsBlock (reduce top k)
reduce-IsBlock top k h = elim (Bool-cases (bit_and top 0x80 == 0)) [
  | inl low ↦ rw low h
  | inr high ↦
      rw high
        (length-xor_bytes k k rb128 ∙ h.0, xor_bytes-IsBytes k k rb128 h.1 h.1 rb128-IsBlock.1)
]

-- The subkey step on a block: shift, and reduce if the top bit was set.
abbrev subkey : List ℕ → List ℕ
subkey l = reduce (get_or l 0 0) (shift_left_one l).0

pub subkey-IsBlock : (l : List ℕ) → IsBlock l → IsBlock (subkey l)
subkey-IsBlock l h =
    reduce-IsBlock (get_or l 0 0) (shift_left_one l).0
      (length-shift_left_one l ∙ h.0, shift_left_one-IsBytes l h.1)

module _ (b : ℕ) (rest : List ℕ) (h : IsBlock (b ∷ rest)) where
  abbrev shifted : List ℕ
  shifted = (shift_left_one (b ∷ rest)).0

  shifted-IsBlock : IsBlock shifted
  shifted-IsBlock = (length-shift_left_one (b ∷ rest) ∙ h.0, shift_left_one-IsBytes (b ∷ rest) h.1)

  rest_size : length rest ≡ 15
  rest_size = omega (arith, h.0)

  -- The number of the block, and of its shifted form.
  block_number : big_endian (b ∷ rest) ≡ b * 2 ^ 120 + big_endian rest
  unfolding big_endian
  block_number = ap (λ n. b * 2 ^ (8 * n) + big_endian rest) rest_size

  rest_range : big_endian rest < 2 ^ 120
  rest_range = subst (λ n. big_endian rest < 2 ^ (8 * n)) rest_size (big_endian-lt rest h.1.1)

  shifted_number : big_endian shifted + b / 2 ^ 7 * 2 ^ 128 ≡ 2 * big_endian (b ∷ rest)
  shifted_number =
      ap (λ n. big_endian shifted + b / 2 ^ 7 * 2 ^ (8 * n)) (sym h.0)
      ∙ unfold shift_left_one in shift_left_one_lem (b ∷ rest) h.1

  double_of_block : big_endian (subkey (b ∷ rest)) ≡ double (big_endian (b ∷ rest))
  double_of_block = elim (Bool-cases (bit_and b 0x80 == 0)) [
    | inl low ↦ rw low (small (ground (arith, top_bit b h.1.0)))
    | inr high ↦ rw high (
        big_endian-xor_bytes shifted rb128 shifted-IsBlock.0 shifted-IsBlock.1 rb128-IsBlock.1
        ∙ large (ground (arith, top_bit b h.1.0)))
  ]
    where
      small : b < 128 → big_endian shifted ≡ double (big_endian (b ∷ rest))
      small lt = ground (arith, shifted_number, block_number, rest_range)

      rb : big_endian rb128 ≡ 0x87
      rb = unfold big_endian in refl

      large : 128 ≤ b → big_endian shifted ⊕ big_endian rb128 ≡ double (big_endian (b ∷ rest))
      large ge =
          ap₂ (λ s t. s ⊕ t) (omega (arith, shifted_number, block_number, h.1.0)) rb
          ∙ sym (
              ap
                (λ c.
                  if c
                  then 2 * big_endian (b ∷ rest)
                  else (2 * big_endian (b ∷ rest) - 2 ^ 128) ⊕ 0x87)
                is_large)
        where
          is_large : ltb (big_endian (b ∷ rest)) (2 ^ 127) ≡ false
          is_large = ground (arith, block_number)

pub subkey-double : (l : List ℕ) → IsBlock l → big_endian (subkey l) ≡ double (big_endian l)
subkey-double [] h = absurd (omega (arith, h.0))
subkey-double (b ∷ rest) h = double_of_block b rest h

module _ (block : Block) (law : IsBlockCipher block) where
  zero_block-IsBlock : IsBlock zero_block
  zero_block-IsBlock = omega arith

  first_ok : IsBlock (subkey (block.encrypt zero_block))
  first_ok =
      subkey-IsBlock (block.encrypt zero_block) (law.keeps_size zero_block zero_block-IsBlock)

  pub subkeys-IsBlock :
      IsBlock (cmac_generate_subkeys block).0 × IsBlock (cmac_generate_subkeys block).1
  unfolding cmac_generate_subkeys
  subkeys-IsBlock = (first_ok, subkey-IsBlock (subkey (block.encrypt zero_block)) first_ok)

  -- If the cipher keeps blocks, the first subkey is the doubled encryption of the zero block, and
  -- the second the doubled first, as big-endian numbers in GF(2^128).
  pub cmac_generate_subkeys_lem :
      (big_endian (cmac_generate_subkeys block).0 ≡ double (big_endian (block.encrypt zero_block)))
      × (big_endian (cmac_generate_subkeys block).1
          ≡ double (big_endian (cmac_generate_subkeys block).0))
  unfolding cmac_generate_subkeys
  cmac_generate_subkeys_lem = (
    subkey-double (block.encrypt zero_block) (law.keeps_size zero_block zero_block-IsBlock),
    subkey-double (subkey (block.encrypt zero_block)) first_ok,
  )
