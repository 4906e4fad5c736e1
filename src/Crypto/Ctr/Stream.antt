-- ===== src/Crypto/Ctr/Stream.antt =====
-- The bytes that `gostCTR` writes, one by one.
use kubebao.Common.{
  ℕ, zero, suc, ◌+◌, ◌-◌, ◌/◌, ◌%◌, ◌^◌, ◌≤◌, ◌<◌, List, [], ◌∷◌, ◌++◌, ◌≡◌, refl, sym, ap, ap₂,
  ◌∙◌, arith, subst, inl, inr, length, take, drop, get_or, length-take, length-drop, Bool-cases,
  ltb, true,
}
use kubebao.Bits.Xor.{◌⊕◌}
use kubebao.Kuznyechik.Bytes.{IsBlock}
use kubebao.Crypto.Block.{Block, IsBlockCipher, xor_bytes, length-xor_bytes}
use kubebao.Crypto.Ctr.{gost_ctr_increment, chunk_size, ctr_loop, gost_ctr}
use kubebao.Crypto.Ctr.Counter.{
  gost_ctr_increment_lem, gost_ctr_increment-IsBlock, low_number, low_number-lt,
}
use kubebao.Crypto.Ctr.Laws.{ctr_loop-cons, chunk_size_bounds, chunk, later, copy-iv}

get_or-append_left :
    (xs ys : List ℕ) (i : ℕ) → i < length xs → get_or (xs ++ ys) i 0 ≡ get_or xs i 0
get_or-append_left [] ys i h = absurd (omega arith)
get_or-append_left (x ∷ xs) ys zero h = refl
get_or-append_left (x ∷ xs) ys (suc i) h = get_or-append_left xs ys i (omega arith)

get_or-append_right : (xs ys : List ℕ) (i : ℕ) → get_or (xs ++ ys) (length xs + i) 0 ≡ get_or ys i 0
get_or-append_right [] ys i = ap (λ n. get_or ys n 0) (omega arith)
get_or-append_right (x ∷ xs) ys i =
    ap (λ n. get_or (x ∷ xs ++ ys) n 0) (place (length xs) i) ∙ get_or-append_right xs ys i
  where
    place : (n m : ℕ) → suc n + m ≡ suc (n + m)
    place n m = omega arith

get_or-take : (xs : List ℕ) (n i : ℕ) → i < n → get_or (take n xs) i 0 ≡ get_or xs i 0
get_or-take xs zero i h = absurd (omega arith)
get_or-take [] (suc n) i h = refl
get_or-take (x ∷ xs) (suc n) zero h = refl
get_or-take (x ∷ xs) (suc n) (suc i) h = get_or-take xs n i (omega arith)

get_or-drop : (xs : List ℕ) (n i : ℕ) → get_or (drop n xs) i 0 ≡ get_or xs (n + i) 0
get_or-drop xs zero i = ap (λ n. get_or xs n 0) (omega arith)
get_or-drop [] (suc n) i = refl
get_or-drop (x ∷ xs) (suc n) i = get_or-drop xs n i ∙ ap (λ m. get_or (x ∷ xs) m 0) (place n i)
  where
    place : (n m : ℕ) → suc (n + m) ≡ suc n + m
    place n m = omega arith

get_or-xor_bytes :
    (dst a b : List ℕ) (i : ℕ)
    → i < length dst
    → i < length a
    → i < length b
    → get_or (xor_bytes dst a b) i 0 ≡ get_or a i 0 ⊕ get_or b i 0
unfolding xor_bytes
get_or-xor_bytes [] a b i p q r = absurd (omega arith)
get_or-xor_bytes (d ∷ dst) [] b i p q r = absurd (omega arith)
get_or-xor_bytes (d ∷ dst) (x ∷ a) [] i p q r = absurd (omega arith)
get_or-xor_bytes (d ∷ dst) (x ∷ a) (y ∷ b) zero p q r = refl
get_or-xor_bytes (d ∷ dst) (x ∷ a) (y ∷ b) (suc i) p q r =
    get_or-xor_bytes dst a b i (omega arith) (omega arith) (omega arith)

-- The counter of block j: the upper half of the IV, and j more in the lower half, modulo 2 ^ 64.
pub record IsCounter (iv : List ℕ) (j : ℕ) (c : List ℕ) : Type 0 where
  pub block : IsBlock c
  pub upper : take 8 c ≡ take 8 iv
  pub lower : low_number 8 c ≡ (low_number 8 iv + j) % 2 ^ 64

-- The next counter is one more block on.
IsCounter-next :
    (iv c : List ℕ) (j : ℕ)
    → IsBlock iv
    → IsCounter (gost_ctr_increment iv) j c
    → IsCounter iv (suc j) c
IsCounter-next iv c j iv_ok h =
    let step = gost_ctr_increment_lem iv iv_ok in
    record { block = h.block; upper = h.upper ∙ step.1; lower = h.lower ∙ omega (arith, step.0) }

-- Byte i of the text, masked with its byte of the gamma of block i / 16.
abbrev pub IsMasked : Block → List ℕ → List ℕ → ℕ → ℕ → Type 0
IsMasked block iv src i b =
    (c : List ℕ) × IsCounter iv (i / 16) c
    × (b ≡ get_or src i 0 ⊕ get_or (block.encrypt c) (i % 16) 0)

module _ (block : Block) (law : IsBlockCipher block) where
  -- A byte of the first block.
  chunk-IsMasked :
      (counter dst src : List ℕ) (i : ℕ)
      → IsBlock counter
      → length dst ≡ length src
      → i < chunk_size src
      → i < length src
      → IsMasked block counter src i (get_or (chunk block counter dst src) i 0)
  chunk-IsMasked counter dst src i ok room near inside = (
    counter,
    record {
      block = ok;
      upper = refl;
      lower = omega (arith, bounds, low_number-lt 8 counter ok.1);
    },
    get_or-xor_bytes (take n dst) (take n src) (take n (block.encrypt counter)) i
          (omega (arith, bounds, length-take {0} n dst))
          (omega (arith, bounds, length-take {0} n src))
          (omega (
            arith,
            length-take {0} n (block.encrypt counter),
            (law.keeps_size counter ok).0,
            bounds,
          ))
        ∙ ap₂ (λ x y. x ⊕ y) (get_or-take src n i near)
            (get_or-take (block.encrypt counter) n i near
              ∙ ap (λ m. get_or (block.encrypt counter) m 0) (omega (arith, bounds))),
  )
    where
      n : ℕ
      n = chunk_size src

      bounds : (0 < n) × (n ≤ length src) × (n ≤ 16)
      bounds = chunk_size_bounds block src (omega arith)

  -- A byte of a later block.
  later-IsMasked :
      (counter src : List ℕ) (i b : ℕ)
      → IsBlock counter
      → IsMasked block (gost_ctr_increment counter) (drop 16 src) i b
      → IsMasked block counter src (16 + i) b
  later-IsMasked counter src i b ok (c, is, eq) = (
    c,
    subst (λ j. IsCounter counter j c) (omega arith) (IsCounter-next counter c (i / 16) ok is),
    eq ∙ ap₂ (λ x n. x ⊕ get_or (block.encrypt c) n 0) (get_or-drop src 16 i) (omega arith),
  )

  length-chunk :
      (counter dst src : List ℕ)
      → length dst ≡ length src
      → 0 < length src
      → length (chunk block counter dst src) ≡ chunk_size src
  length-chunk counter dst src room some_left =
      let n = chunk_size src in
      length-xor_bytes (take n dst) (take n src) (take n (block.encrypt counter))
      ∙ omega (arith, length-take {0} n dst, chunk_size_bounds block src some_left)

  -- Behind a whole block the loop goes on with the next counter.
  get_or-later :
      (f : ℕ) (counter dst src : List ℕ) (j : ℕ)
      → chunk_size src ≡ 16
      → length dst ≡ length src
      → 0 < length src
      → get_or (chunk block counter dst src ++ later block f counter dst src) (16 + j) 0
        ≡ get_or (ctr_loop f block (gost_ctr_increment counter) (drop 16 dst) (drop 16 src)) j 0
  get_or-later f counter dst src j whole room some_left =
      ap (λ n. get_or (chunk block counter dst src ++ later block f counter dst src) (n + j) 0)
        (sym (length-chunk counter dst src room some_left ∙ whole))
      ∙ get_or-append_right (chunk block counter dst src) (later block f counter dst src) j
      ∙ ap
          (λ n.
            get_or (ctr_loop f block (gost_ctr_increment counter) (drop n dst) (drop n src)) j 0)
          whole

  ctr_loop-IsMasked :
      (f : ℕ) (counter dst src : List ℕ) (i : ℕ)
      → IsBlock counter
      → length dst ≡ length src
      → length src ≤ f
      → i < length src
      → IsMasked block counter src i (get_or (ctr_loop f block counter dst src) i 0)
  ctr_loop-IsMasked zero counter dst src i ok room fuel near = absurd (omega arith)
  ctr_loop-IsMasked (suc f) counter dst src i ok room fuel near =
      subst (λ out. IsMasked block counter src i (get_or out i 0))
        (sym (ctr_loop-cons block f counter dst src (omega arith)))
        (elim (Bool-cases (ltb i n)) [
          | inl first ↦
              subst (IsMasked block counter src i)
                (sym (
                  get_or-append_left (chunk block counter dst src) (later block f counter dst src) i
                    (omega
                      (arith, length-chunk counter dst src room (omega arith), first_below first))))
                (chunk-IsMasked counter dst src i ok room (ground arith) near)
          | inr behind ↦
              subst
                (λ m.
                  IsMasked block counter src m
                    (get_or (chunk block counter dst src ++ later block f counter dst src) m 0))
                (ground arith)
                (subst (IsMasked block counter src (16 + (i - 16)))
                  (sym (get_or-later f counter dst src (i - 16) (ground arith) room (omega arith)))
                  (later-IsMasked counter src (i - 16)
                    (get_or
                      (ctr_loop f block (gost_ctr_increment counter) (drop 16 dst) (drop 16 src))
                      (i - 16) 0)
                    ok
                    (ctr_loop-IsMasked f (gost_ctr_increment counter) (drop 16 dst) (drop 16 src)
                      (i - 16) (gost_ctr_increment-IsBlock counter ok)
                      (omega (arith, length-drop {0} 16 dst, length-drop {0} 16 src))
                      (omega (arith, length-drop {0} 16 src))
                      (ground (arith, length-drop {0} 16 src)))))
        ])
    where
      n : ℕ
      n = chunk_size src

      first_below : ltb i n ≡ true → i < n
      first_below h = ground arith

  -- If the cipher keeps blocks, each byte i that `gostCTR` writes under an IV of sixteen bytes is
  -- byte i of the text, masked with byte i % 16 of the encryption of one counter: the upper half
  -- of the IV, and the lower half plus i / 16, modulo 2 ^ 64.
  pub gost_ctr-IsMasked :
      (iv dst src : List ℕ) (i : ℕ)
      → IsBlock iv
      → length dst ≡ length src
      → i < length src
      → IsMasked block iv src i (get_or (gost_ctr block dst src iv) i 0)
  unfolding gost_ctr
  gost_ctr-IsMasked iv dst src i iv_ok room near =
      subst (λ c. IsMasked block iv src i (get_or (ctr_loop (length src) block c dst src) i 0))
        (sym (copy-iv iv iv_ok.0))
        (ctr_loop-IsMasked (length src) iv dst src i iv_ok room (omega arith) near)
