-- ===== src/Kuznyechik/Schedule.antt =====
-- The round keys of `NewCipher` beside those of the standard.
use kubebao.Common.{
  ℕ, zero, suc, ◌+◌, ◌*◌, ◌%◌, ◌/◌, ◌^◌, ◌≤◌, ◌<◌, [], ◌∷◌, ◌≡◌, refl, ap, ap₂, ◌∙◌, arith, map,
  holds_below, eq_below,
}
use kubebao.Bits.Xor.{◌⊕◌}
use kubebao.Bits.Linear.{pick}
use kubebao.Kuznyechik.Tables.{c_table}
use kubebao.Kuznyechik.Cipher.{Words, KeyPair, c_entry, xor_words, ls, f, fk_loop, fk, expand_key}
use kubebao.Kuznyechik.Gost.{gost_l, gost_s, gost_constant, gost_f, gost_steps, gost_round_keys}
use kubebao.Kuznyechik.Gost.Linear.{gost_l-lt}
use kubebao.Kuznyechik.Mix.{
  IsWords, join, split, join-split, split-IsWords, xor_words-IsWords, join-xor_words,
}
use kubebao.Kuznyechik.Rounds.{join-ls, ls-IsWords}
use kubebao.Kuznyechik.Correct.{AllWords}

c-first : (i : ℕ) → i < 32 → (c_entry i).0 ≡ gost_constant i % 2 ^ 64
unfolding holds_below c_table gost_constant gost_l pick
c-first = eq_below 32 (λ i. (c_entry i).0) (λ i. gost_constant i % 2 ^ 64) refl

c-second : (i : ℕ) → i < 32 → (c_entry i).1 ≡ gost_constant i / 2 ^ 64
unfolding holds_below c_table gost_constant gost_l pick
c-second = eq_below 32 (λ i. (c_entry i).1) (λ i. gost_constant i / 2 ^ 64) refl

-- The table `c` holds L of the step's number.
pub c_entry_lem : (i : ℕ) → i < 32 → c_entry i ≡ split (gost_constant i)
c_entry_lem i h = ap₂ (λ (a b : ℕ). (a, b)) (c-first i h) (c-second i h)

c_entry-IsWords : (i : ℕ) → i < 32 → IsWords (c_entry i)
unfolding gost_constant
c_entry-IsWords i h =
    rw (c_entry_lem i h)
      (split-IsWords (gost_constant i) (gost_l-lt (suc i * 2 ^ 120) (omega arith)))

abbrev pub join_pair : KeyPair → ℕ × ℕ
join_pair k = (join k.0, join k.1)

abbrev pub IsKeyPair : KeyPair → Type 0
IsKeyPair k = IsWords k.0 × IsWords k.1

f-IsKeyPair : (k : KeyPair) (i : ℕ) → i < 32 → IsKeyPair k → IsKeyPair (f k i)
unfolding f
f-IsKeyPair k i h ok = (
  xor_words-IsWords (ls (xor_words k.0 (c_entry i))) k.1
      (ls-IsWords (xor_words k.0 (c_entry i))
        (xor_words-IsWords k.0 (c_entry i) ok.0 (c_entry-IsWords i h)))
      ok.1,
  ok.0,
)

-- One step of the code is one step of the standard's Feistel network.
f_lem :
    (k : KeyPair) (i : ℕ)
    → i < 32
    → IsKeyPair k
    → join_pair (f k i) ≡ gost_f (gost_constant i) (join_pair k)
unfolding f gost_f
f_lem k i h ok =
    ap (λ (n : ℕ). (n, join k.0))
      (join-xor_words (ls mixed) k.1 (ls-IsWords mixed mixed_ok) ok.1
        ∙ ap (λ n. n ⊕ join k.1)
            (join-ls mixed mixed_ok
              ∙ ap (λ n. gost_l (gost_s n))
                  (join-xor_words k.0 (c_entry i) ok.0 (c_entry-IsWords i h)
                    ∙ ap (λ n. join k.0 ⊕ n)
                        (ap join (c_entry_lem i h) ∙ join-split (gost_constant i)))))
  where
    mixed : Words
    mixed = xor_words k.0 (c_entry i)

    mixed_ok : IsWords mixed
    mixed_ok = xor_words-IsWords k.0 (c_entry i) ok.0 (c_entry-IsWords i h)

abbrev twice : ℕ → ℕ
twice zero = zero
twice (suc n) = suc (suc (twice n))

fk_loop-IsKeyPair :
    (n i : ℕ) (k : KeyPair) (ist : ℕ)
    → i + ist + twice n ≤ 32
    → IsKeyPair k
    → IsKeyPair (fk_loop n i k ist)
unfolding fk_loop
fk_loop-IsKeyPair zero i k ist fits ok = ok
fk_loop-IsKeyPair (suc n) i k ist fits ok =
    fk_loop-IsKeyPair n (i + 2) (f (f k (i + ist)) (i + 1 + ist)) ist (omega arith) (
      f-IsKeyPair (f k (i + ist)) (i + 1 + ist) (omega arith)
        (f-IsKeyPair k (i + ist) (omega arith) ok))

fk_loop_lem :
    (n i : ℕ) (k : KeyPair) (ist : ℕ)
    → i + ist + twice n ≤ 32
    → IsKeyPair k
    → join_pair (fk_loop n i k ist) ≡ gost_steps (twice n) (i + ist) (join_pair k)
unfolding fk_loop gost_steps
fk_loop_lem zero i k ist fits ok = refl
fk_loop_lem (suc n) i k ist fits ok =
    fk_loop_lem n (i + 2) (f (f k (i + ist)) (i + 1 + ist)) ist (omega arith)
      (f-IsKeyPair (f k (i + ist)) (i + 1 + ist) (omega arith) once_ok)
    ∙ ap₂ (gost_steps (twice n)) two_on (
        f_lem (f k (i + ist)) (i + 1 + ist) (omega arith) once_ok
        ∙ ap₂ (λ j p. gost_f (gost_constant j) p) one_on (f_lem k (i + ist) (omega arith) ok))
  where
    once_ok : IsKeyPair (f k (i + ist))
    once_ok = f-IsKeyPair k (i + ist) (omega arith) ok

    one_on : i + 1 + ist ≡ suc (i + ist)
    one_on = omega arith

    two_on : i + 2 + ist ≡ suc (suc (i + ist))
    two_on = omega arith

fk-IsKeyPair : (k : KeyPair) (ist : ℕ) → ist + 8 ≤ 32 → IsKeyPair k → IsKeyPair (fk k ist)
unfolding fk
fk-IsKeyPair k ist fits ok = fk_loop-IsKeyPair 4 0 k ist (omega arith) ok

-- `fk` is eight steps of the network.
pub fk_lem :
    (k : KeyPair) (ist : ℕ)
    → ist + 8 ≤ 32
    → IsKeyPair k
    → join_pair (fk k ist) ≡ gost_steps 8 ist (join_pair k)
unfolding fk
fk_lem k ist fits ok =
    fk_loop_lem 4 0 k ist (omega arith) ok ∙ ap (λ i. gost_steps 8 i (join_pair k)) (omega arith)

-- The pairs of keys after each eight steps.
module _ (k : KeyPair) where
  abbrev pub second_pair : KeyPair
  second_pair = fk k 0

  abbrev pub third_pair : KeyPair
  third_pair = fk second_pair 8

  abbrev pub fourth_pair : KeyPair
  fourth_pair = fk third_pair 16

  abbrev pub fifth_pair : KeyPair
  fifth_pair = fk fourth_pair 24

module _ (k : KeyPair) (ok : IsKeyPair k) where
  second_ok : IsKeyPair (second_pair k)
  second_ok = fk-IsKeyPair k 0 (omega arith) ok

  third_ok : IsKeyPair (third_pair k)
  third_ok = fk-IsKeyPair (second_pair k) 8 (omega arith) second_ok

  fourth_ok : IsKeyPair (fourth_pair k)
  fourth_ok = fk-IsKeyPair (third_pair k) 16 (omega arith) third_ok

  fifth_ok : IsKeyPair (fifth_pair k)
  fifth_ok = fk-IsKeyPair (fourth_pair k) 24 (omega arith) fourth_ok

  pub expand_key-AllWords : AllWords (expand_key k)
  unfolding expand_key
  expand_key-AllWords = (
    ok.0,
    (
      ok.1,
      (
        second_ok.0,
        (
          second_ok.1,
          (third_ok.0, (third_ok.1, (fourth_ok.0, (fourth_ok.1, (fifth_ok.0, (fifth_ok.1, tt)))))),
        ),
      ),
    ),
  )

  second_lem : join_pair (second_pair k) ≡ gost_steps 8 0 (join_pair k)
  second_lem = fk_lem k 0 (omega arith) ok

  third_lem : join_pair (third_pair k) ≡ gost_steps 8 8 (gost_steps 8 0 (join_pair k))
  third_lem = fk_lem (second_pair k) 8 (omega arith) second_ok ∙ ap (gost_steps 8 8) second_lem

  fourth_lem :
      join_pair (fourth_pair k) ≡ gost_steps 8 16 (gost_steps 8 8 (gost_steps 8 0 (join_pair k)))
  fourth_lem = fk_lem (third_pair k) 16 (omega arith) third_ok ∙ ap (gost_steps 8 16) third_lem

  fifth_lem :
      join_pair (fifth_pair k)
      ≡ gost_steps 8 24 (gost_steps 8 16 (gost_steps 8 8 (gost_steps 8 0 (join_pair k))))
  fifth_lem = fk_lem (fourth_pair k) 24 (omega arith) fourth_ok ∙ ap (gost_steps 8 24) fourth_lem

  -- If the four words of the key are below 2^64, the ten keys that `NewCipher` stores in `erk` are
  -- the round keys of the standard.
  pub expand_key_lem : map join (expand_key k) ≡ gost_round_keys (join_pair k)
  unfolding expand_key gost_round_keys
  expand_key_lem = λ i.
      join k.0
      ∷ join k.1
      ∷ (second_lem i).0
      ∷ (second_lem i).1
      ∷ (third_lem i).0
      ∷ (third_lem i).1
      ∷ (fourth_lem i).0
      ∷ (fourth_lem i).1
      ∷ (fifth_lem i).0
      ∷ (fifth_lem i).1
      ∷ []
