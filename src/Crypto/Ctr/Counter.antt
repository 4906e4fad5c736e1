-- ===== src/Crypto/Ctr/Counter.antt =====
-- The counter of the counter mode: its lower eight bytes, big end first, are a 64-bit number.
use native.Mathlib.Nat.{
  one-le-pow, add-zero, add-mul-mod_self_right, mod-eq_of_lt, mod-lt, div-add-mod,
}
use kubebao.Common.{
  take-set, take, ℕ, zero, suc, ◌+◌, ◌-◌, ◌*◌, ◌/◌, ◌%◌, ◌^◌, ◌≤◌, ◌<◌, List, [], ◌∷◌, ◌≡◌, refl,
  sym, ap, ap₂, ◌∙◌, arith, ◌==◌, if◌then◌else◌, set, get_or, length-set, get_or-set_self,
  get_or-set_ne, Bool-cases, inl, inr, true, false, ==_iff, ◌⊎◌,
}
use kubebao.Kuznyechik.Tables.{uint8}
use kubebao.Kuznyechik.Bytes.{IsBytes, IsBlock, power_byte}
use kubebao.Crypto.Ctr.{increment_loop, gost_ctr_increment}

-- The number in the k bytes from byte 8 on.
unfoldable pub low_number : ℕ → List ℕ → ℕ
low_number zero counter = 0
low_number (suc k) counter = low_number k counter * 256 + get_or counter (8 + k) 0

byte_range : (bs : List ℕ) (i : ℕ) → IsBytes bs → get_or bs i 0 < 256
byte_range [] i h = omega arith
byte_range (b ∷ bs) zero h = h.0
byte_range (b ∷ bs) (suc i) h = byte_range bs i h.1

IsBytes-set : (bs : List ℕ) (i v : ℕ) → IsBytes bs → v < 256 → IsBytes (set bs i v)
IsBytes-set [] i v h k = tt
IsBytes-set (b ∷ bs) zero v h k = (k, h.1)
IsBytes-set (b ∷ bs) (suc i) v h k = (h.0, IsBytes-set bs i v h.1 k)

pub low_number-lt : (k : ℕ) (bs : List ℕ) → IsBytes bs → low_number k bs < 2 ^ (8 * k)
unfolding low_number
low_number-lt zero bs h = omega arith
low_number-lt (suc k) bs h =
    omega (arith, power_byte k, low_number-lt k bs h, byte_range bs (8 + k) h)

low_number-set : (k i v : ℕ) (bs : List ℕ) → 8 + k ≤ i → low_number k (set bs i v) ≡ low_number k bs
unfolding low_number
low_number-set zero i v bs h = refl
low_number-set (suc k) i v bs h =
    ap₂ (λ a b. a * 256 + b) (low_number-set k i v bs (omega arith))
      (get_or-set_ne bs i (8 + k) v 0 (λ e. absurd (omega arith)))

-- The new byte at `i`.
abbrev bumped : ℕ → List ℕ → List ℕ
bumped i counter = set counter i (uint8 (get_or counter i 0 + 1))

bumped-IsBlock : (i : ℕ) (counter : List ℕ) → IsBlock counter → IsBlock (bumped i counter)
bumped-IsBlock i counter h = (
  length-set counter i (uint8 (get_or counter i 0 + 1)) ∙ h.0,
  IsBytes-set counter i (uint8 (get_or counter i 0 + 1)) h.1 (omega arith),
)

-- A round ends the loop unless the byte came round to zero.
increment_loop-suc :
    (left i : ℕ) (counter : List ℕ)
    → increment_loop (suc left) i counter ≡ (
        if uint8 (get_or counter i 0 + 1) == 0
        then increment_loop left (i - 1) (bumped i counter)
        else bumped i counter)
unfolding increment_loop
increment_loop-suc left i counter = refl

pub increment_loop-IsBlock :
    (left i : ℕ) (counter : List ℕ) → IsBlock counter → IsBlock (increment_loop left i counter)
unfolding increment_loop
increment_loop-IsBlock zero i counter h = h
increment_loop-IsBlock (suc left) i counter h =
    elim (Bool-cases (uint8 (get_or counter i 0 + 1) == 0)) [
      | inl again ↦
          rw (increment_loop-suc, again)
            (increment_loop-IsBlock left (i - 1) (bumped i counter) (bumped-IsBlock i counter h))
      | inr done ↦ rw (increment_loop-suc, done) (bumped-IsBlock i counter h)
    ]

-- Only bytes from i - left + 1 to i change.
increment_loop-outside :
    (left i j : ℕ) (counter : List ℕ)
    → (j + left ≤ i) ⊎ (i < j)
    → get_or (increment_loop left i counter) j 0 ≡ get_or counter j 0
unfolding increment_loop
increment_loop-outside zero i j counter h = refl
increment_loop-outside (suc left) i j counter h =
    elim (Bool-cases (uint8 (get_or counter i 0 + 1) == 0)) [
      | inl again ↦
          rw (increment_loop-suc, again)
            (increment_loop-outside left (i - 1) j (bumped i counter) (ground arith)
              ∙ get_or-set_ne counter i j (uint8 (get_or counter i 0 + 1)) 0 (ground arith))
      | inr done ↦
          rw (increment_loop-suc, done)
            (get_or-set_ne counter i j (uint8 (get_or counter i 0 + 1)) 0 (ground arith))
    ]

-- The bytes before i - left + 1 stay.
increment_loop-take :
    (left i n : ℕ) (counter : List ℕ)
    → n + left ≤ suc i
    → take n (increment_loop left i counter) ≡ take n counter
unfolding increment_loop
increment_loop-take zero i n counter h = refl
increment_loop-take (suc left) i n counter h =
    let v = uint8 (get_or counter i 0 + 1) in
    elim (Bool-cases (v == 0)) [
      | inl again ↦
          rw (increment_loop-suc, again)
            (increment_loop-take left (i - 1) n (bumped i counter) (omega arith)
              ∙ take-set n i v counter (omega arith))
      | inr done ↦ rw (increment_loop-suc, done) (take-set n i v counter (omega arith))
    ]

carry_mod : (x p : ℕ) → 0 < p → (x * 256) % (p * 256) ≡ x % p * 256
carry_mod x p pos =
    ap (λ t. t % (p * 256)) split_x
    ∙ add-mul-mod_self_right (x % p * 256) (x / p) (p * 256)
    ∙ mod-eq_of_lt (omega (arith, mod-lt x pos))
  where
    split_x : x * 256 ≡ x % p * 256 + x / p * (p * 256)
    split_x = omega (arith, div-add-mod x p)

module _ (k : ℕ) (counter : List ℕ) (fits : suc k ≤ 8) (h : IsBlock counter) where
  abbrev top_byte : ℕ
  top_byte = get_or counter (8 + k) 0

  new_top : get_or (bumped (8 + k) counter) (8 + k) 0 ≡ uint8 (top_byte + 1)
  new_top = get_or-set_self counter (8 + k) (uint8 (top_byte + 1)) 0 (omega (arith, h.0))

  carry_on :
      (uint8 (top_byte + 1) == 0) ≡ true
      → increment_loop (suc k) (7 + suc k) counter
        ≡ increment_loop k (7 + k) (bumped (8 + k) counter)
  carry_on again =
      ap (λ i. increment_loop (suc k) i counter) (omega arith)
      ∙ increment_loop-suc k (8 + k) counter
      ∙ ap
          (λ b.
            if b
            then increment_loop k (8 + k - 1) (bumped (8 + k) counter)
            else bumped (8 + k) counter)
          again
      ∙ ap (λ i. increment_loop k i (bumped (8 + k) counter)) (omega arith)

  carry_off :
      (uint8 (top_byte + 1) == 0) ≡ false
      → increment_loop (suc k) (7 + suc k) counter ≡ bumped (8 + k) counter
  carry_off done =
      ap (λ i. increment_loop (suc k) i counter) (omega arith)
      ∙ increment_loop-suc k (8 + k) counter
      ∙ ap
          (λ b.
            if b
            then increment_loop k (8 + k - 1) (bumped (8 + k) counter)
            else bumped (8 + k) counter)
          done

  count_carry :
      (uint8 (top_byte + 1) == 0) ≡ true
      → low_number k (increment_loop k (7 + k) (bumped (8 + k) counter))
        ≡ (low_number k counter + 1) % 2 ^ (8 * k)
      → low_number (suc k) (increment_loop (suc k) (7 + suc k) counter)
        ≡ (low_number (suc k) counter + 1) % 2 ^ (8 * suc k)
  unfolding low_number
  count_carry again lower =
      ap (low_number (suc k)) (carry_on again)
      ∙ ap₂ (λ a b. a * 256 + b) lower
          (increment_loop-outside k (7 + k) (8 + k) (bumped (8 + k) counter) (inr (omega arith))
            ∙ new_top
            ∙ (==_iff (uint8 (top_byte + 1)) 0).0 again)
      ∙ add-zero ((low_number k counter + 1) % 2 ^ (8 * k) * 256)
      ∙ sym
          (carry_mod (low_number k counter + 1) (2 ^ (8 * k)) (one-le-pow (8 * k) 2 (omega arith)))
      ∙ ap₂ (λ a b. a % b) full_byte (sym (power_byte k))
    where
      full_byte : (low_number k counter + 1) * 256 ≡ low_number k counter * 256 + top_byte + 1
      full_byte = ground (arith, byte_range counter (8 + k) h.1)

  count_stop :
      (uint8 (top_byte + 1) == 0) ≡ false
      → low_number (suc k) (increment_loop (suc k) (7 + suc k) counter)
        ≡ (low_number (suc k) counter + 1) % 2 ^ (8 * suc k)
  unfolding low_number
  count_stop done =
      ap (low_number (suc k)) (carry_off done)
      ∙ ap₂ (λ a b. a * 256 + b)
          (low_number-set k (8 + k) (uint8 (top_byte + 1)) counter (omega arith)) new_top
      ∙ small_byte
      ∙ sym (mod-eq_of_lt (omega (arith, power_byte k, low_number-lt k counter h.1, not_full)))
    where
      not_full : top_byte + 1 < 256
      not_full = ground (arith, byte_range counter (8 + k) h.1)

      small_byte :
          low_number k counter * 256 + uint8 (top_byte + 1)
          ≡ low_number k counter * 256 + top_byte + 1
      small_byte = omega (arith, not_full)

-- The carry: the k bytes count up by one, modulo 2 ^ (8 * k).
increment_loop-low_number :
    (k : ℕ) (counter : List ℕ)
    → k ≤ 8
    → IsBlock counter
    → low_number k (increment_loop k (7 + k) counter) ≡ (low_number k counter + 1) % 2 ^ (8 * k)
increment_loop-low_number zero counter fits h = unfold low_number in omega arith
increment_loop-low_number (suc k) counter fits h =
    elim (Bool-cases (uint8 (get_or counter (8 + k) 0 + 1) == 0)) [
      | inl again ↦ count_carry k counter fits h again (
          increment_loop-low_number k (bumped (8 + k) counter) (omega arith)
            (bumped-IsBlock (8 + k) counter h)
          ∙ ap (λ n. (n + 1) % 2 ^ (8 * k))
              (low_number-set k (8 + k) (uint8 (get_or counter (8 + k) 0 + 1)) counter
                (omega arith)))
      | inr done ↦ count_stop k counter fits h done
    ]

pub gost_ctr_increment-IsBlock :
    (counter : List ℕ) → IsBlock counter → IsBlock (gost_ctr_increment counter)
unfolding gost_ctr_increment
gost_ctr_increment-IsBlock = increment_loop-IsBlock 8 15

-- On a block of sixteen bytes one increment adds one, modulo 2 ^ 64, to the number in the lower
-- eight bytes, and leaves the upper eight bytes as they are.
pub gost_ctr_increment_lem :
    (counter : List ℕ)
    → IsBlock counter
    → (low_number 8 (gost_ctr_increment counter) ≡ (low_number 8 counter + 1) % 2 ^ 64)
      × (take 8 (gost_ctr_increment counter) ≡ take 8 counter)
unfolding gost_ctr_increment
gost_ctr_increment_lem counter h = (
  increment_loop-low_number 8 counter (omega arith) h,
  increment_loop-take 8 15 8 counter (omega arith),
)
