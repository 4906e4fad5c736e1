-- ===== src/Crypto/Ctr/Laws.antt =====
-- The counter mode on whole slices: its fuel, its length, and its second application.
use kubebao.Common.{
  ℕ, zero, suc, ◌+◌, ◌≤◌, ◌<◌, List, [], ◌∷◌, ◌++◌, ◌≡◌, refl, sym, ap, ap₂, ◌∙◌, arith, ltb,
  if◌then◌else◌, length, take, drop, replicate, length-take, length-drop, length-append,
  take-append, drop-append, take-append-drop, take-length, append-nil, subst,
}
use kubebao.Kuznyechik.Bytes.{IsBytes, IsBlock, IsBytes-take, IsBytes-drop, IsBytes-append}
use kubebao.Crypto.Block.{
  Block, IsBlockCipher, xor_bytes, copy_at, length-xor_bytes, xor_bytes-IsBytes, xor_bytes_back,
}
use kubebao.Crypto.Ctr.{gost_ctr_increment, chunk_size, ctr_loop, gost_ctr}
use kubebao.Crypto.Ctr.Counter.{gost_ctr_increment-IsBlock}

module _ (block : Block) where
  -- The bytes of one round, and the rounds after it.
  abbrev pub chunk : List ℕ → List ℕ → List ℕ → List ℕ
  chunk counter dst src =
      let n = chunk_size src in xor_bytes (take n dst) (take n src) (take n (block.encrypt counter))

  abbrev pub later : ℕ → List ℕ → List ℕ → List ℕ → List ℕ
  later fuel counter dst src =
      ctr_loop fuel block (gost_ctr_increment counter) (drop (chunk_size src) dst)
        (drop (chunk_size src) src)

  ctr_loop-nil : (fuel : ℕ) (counter dst : List ℕ) → ctr_loop fuel block counter dst [] ≡ dst
  unfolding ctr_loop
  ctr_loop-nil zero counter dst = refl
  ctr_loop-nil (suc fuel) counter dst = refl

  pub ctr_loop-cons :
      (fuel : ℕ) (counter dst src : List ℕ)
      → 0 < length src
      → ctr_loop (suc fuel) block counter dst src
        ≡ chunk counter dst src ++ later fuel counter dst src
  unfolding ctr_loop
  ctr_loop-cons fuel counter dst [] h = absurd (omega arith)
  ctr_loop-cons fuel counter dst (x ∷ src) h = ground arith

  pub chunk_size_bounds :
      (src : List ℕ)
      → 0 < length src
      → (0 < chunk_size src) × (chunk_size src ≤ length src) × (chunk_size src ≤ 16)
  chunk_size_bounds src h = ground arith

  -- The loop of `gostCTR` gives the same on every fuel of at least the length of the text, so the
  -- bound of `gost_ctr` never cuts it short.
  pub ctr_loop-fuel :
      (f g : ℕ) (counter dst src : List ℕ)
      → length src ≤ f
      → length src ≤ g
      → ctr_loop f block counter dst src ≡ ctr_loop g block counter dst src
  ctr_loop-fuel f g counter dst [] p q =
      ctr_loop-nil f counter dst ∙ sym (ctr_loop-nil g counter dst)
  ctr_loop-fuel zero g counter dst (x ∷ src) p q = absurd (omega arith)
  ctr_loop-fuel (suc f) zero counter dst (x ∷ src) p q = absurd (omega arith)
  ctr_loop-fuel (suc f) (suc g) counter dst (x ∷ src) p q =
      let n = chunk_size_bounds (x ∷ src) (omega arith) in
      ctr_loop-cons f counter dst (x ∷ src) (omega arith)
      ∙ ap (λ t. chunk counter dst (x ∷ src) ++ t)
          (ctr_loop-fuel f g (gost_ctr_increment counter) (drop (chunk_size (x ∷ src)) dst)
            (drop (chunk_size (x ∷ src)) (x ∷ src))
            (omega (arith, length-drop (chunk_size (x ∷ src)) (x ∷ src)))
            (omega (arith, length-drop (chunk_size (x ∷ src)) (x ∷ src))))
      ∙ sym (ctr_loop-cons g counter dst (x ∷ src) (omega arith))

  length-ctr_loop :
      (f : ℕ) (counter dst src : List ℕ)
      → length dst ≡ length src
      → length (ctr_loop f block counter dst src) ≡ length dst
  length-ctr_loop zero counter dst src h = unfold ctr_loop in refl
  length-ctr_loop (suc f) counter dst [] h = ap length (ctr_loop-nil (suc f) counter dst)
  length-ctr_loop (suc f) counter dst (x ∷ src) h =
      let n = chunk_size (x ∷ src) in
      ap length (ctr_loop-cons f counter dst (x ∷ src) (omega arith))
      ∙ omega (
        arith,
        length-append {0} (chunk counter dst (x ∷ src)) (later f counter dst (x ∷ src)),
        length-xor_bytes (take n dst) (take n (x ∷ src)) (take n (block.encrypt counter)),
        length-take {0} n dst,
        length-drop {0} n dst,
        length-drop {0} n (x ∷ src),
        chunk_size_bounds (x ∷ src) (omega arith),
        length-ctr_loop f (gost_ctr_increment counter) (drop n dst) (drop n (x ∷ src))
            (omega (arith, h, length-drop {0} n dst, length-drop {0} n (x ∷ src))),
      )

  -- The first round on a text that is known in two parts.
  ctr_loop-append :
      (f n : ℕ) (counter dst front rest : List ℕ)
      → 0 < n
      → length front ≡ n
      → chunk_size (front ++ rest) ≡ n
      → ctr_loop (suc f) block counter dst (front ++ rest)
        ≡ xor_bytes (take n dst) front (take n (block.encrypt counter))
          ++ ctr_loop f block (gost_ctr_increment counter) (drop n dst) rest
  ctr_loop-append f n counter dst front rest pos len size =
      ctr_loop-cons f counter dst (front ++ rest) (omega (arith, length-append {0} front rest))
      ∙ ap
          (λ m.
            xor_bytes (take m dst) (take m (front ++ rest)) (take m (block.encrypt counter))
            ++ ctr_loop f block (gost_ctr_increment counter) (drop m dst) (drop m (front ++ rest)))
          size
      ∙ ap₂
          (λ a b.
            xor_bytes (take n dst) a (take n (block.encrypt counter))
            ++ ctr_loop f block (gost_ctr_increment counter) (drop n dst) b)
          (take-append front rest n len) (drop-append front rest n len)

chunk_size-length : (xs ys : List ℕ) → length xs ≡ length ys → chunk_size xs ≡ chunk_size ys
chunk_size-length xs ys h = ap (λ l. if ltb l 16 then l else 16) h

module _ (block : Block) (law : IsBlockCipher block) where
  -- A round on `src`, and the same round on its output.
  chunk_back :
      (counter dst dst' src : List ℕ)
      → IsBlock counter
      → 0 < length src
      → length dst ≡ length src
      → length dst' ≡ length src
      → let n = chunk_size src in
        xor_bytes (take n dst') (chunk block counter dst src) (take n (block.encrypt counter))
        ≡ take n src
  chunk_back counter dst dst' src ok pos p q =
      let n = chunk_size src in
      xor_bytes_back (take n dst) (take n dst') (take n src) (take n (block.encrypt counter))
        (omega (arith, length-take {0} n dst, length-take {0} n src))
        (omega (arith, length-take {0} n dst', length-take {0} n src))
        (omega (
          arith,
          length-take {0} n (block.encrypt counter),
          length-take {0} n src,
          (law.keeps_size counter ok).0,
          chunk_size_bounds block src pos,
        ))

  length-chunk :
      (counter dst src : List ℕ)
      → 0 < length src
      → length dst ≡ length src
      → length (chunk block counter dst src) ≡ chunk_size src
  length-chunk counter dst src pos p =
      let n = chunk_size src in
      length-xor_bytes (take n dst) (take n src) (take n (block.encrypt counter))
      ∙ omega (arith, length-take {0} n dst, chunk_size_bounds block src pos)

  -- The loop with the same counter gives the text back, whatever its output buffers held.
  ctr_loop_back :
      (f : ℕ) (counter dst dst' src : List ℕ)
      → IsBlock counter
      → length src ≤ f
      → length dst ≡ length src
      → length dst' ≡ length src
      → ctr_loop f block counter dst' (ctr_loop f block counter dst src) ≡ src
  ctr_loop_back f counter [] [] [] ok fits p q =
      ap (ctr_loop f block counter []) (ctr_loop-nil block f counter [])
      ∙ ctr_loop-nil block f counter []
  ctr_loop_back f counter dst (d ∷ dst') [] ok fits p q = absurd (omega arith)
  ctr_loop_back f counter (d ∷ dst) [] [] ok fits p q = absurd (omega arith)
  ctr_loop_back zero counter dst dst' (x ∷ src) ok fits p q = absurd (omega arith)
  ctr_loop_back (suc f) counter dst dst' (x ∷ src) ok fits p q =
      let text = x ∷ src in
      let n = chunk_size text in
      let bounds = chunk_size_bounds block text (omega arith) in
      let front = chunk block counter dst text in
      let rest = later block f counter dst text in
      let split_out : ctr_loop (suc f) block counter dst text ≡ front ++ rest =
        ctr_loop-cons block f counter dst text (omega arith) in
      let same_size : length (front ++ rest) ≡ length text =
        ap length (sym split_out) ∙ length-ctr_loop block (suc f) counter dst text p ∙ p in
      ap (ctr_loop (suc f) block counter dst') split_out
      ∙ ctr_loop-append block f n counter dst' front rest (bounds.0)
          (length-chunk counter dst text (omega arith) p)
          (chunk_size-length (front ++ rest) text same_size)
      ∙ ap₂ ◌++◌ (chunk_back counter dst dst' text ok (omega arith) p q) (
          ctr_loop_back f (gost_ctr_increment counter) (drop n dst) (drop n dst') (drop n text)
            (gost_ctr_increment-IsBlock counter ok) (omega (arith, length-drop {0} n text, bounds))
            (omega (arith, length-drop {0} n dst, length-drop {0} n text))
            (omega (arith, length-drop {0} n dst', length-drop {0} n text)))
      ∙ take-append-drop n text

  ctr_loop-IsBytes :
      (f : ℕ) (counter dst src : List ℕ)
      → IsBlock counter
      → IsBytes dst
      → IsBytes src
      → IsBytes (ctr_loop f block counter dst src)
  ctr_loop-IsBytes zero counter dst src ok p q = unfold ctr_loop in p
  ctr_loop-IsBytes (suc f) counter dst [] ok p q =
      subst IsBytes (sym (ctr_loop-nil block (suc f) counter dst)) p
  ctr_loop-IsBytes (suc f) counter dst (x ∷ src) ok p q =
      let n = chunk_size (x ∷ src) in
      subst IsBytes (sym (ctr_loop-cons block f counter dst (x ∷ src) (omega arith))) (
        IsBytes-append (chunk block counter dst (x ∷ src)) (later block f counter dst (x ∷ src))
          (xor_bytes-IsBytes (take n dst) (take n (x ∷ src)) (take n (block.encrypt counter))
            (IsBytes-take n dst p) (IsBytes-take n (x ∷ src) q)
            (IsBytes-take n (block.encrypt counter) (law.keeps_size counter ok).1))
          (ctr_loop-IsBytes f (gost_ctr_increment counter) (drop n dst) (drop n (x ∷ src))
            (gost_ctr_increment-IsBlock counter ok) (IsBytes-drop n dst p)
            (IsBytes-drop n (x ∷ src) q)))

-- The initial counter is the IV.
pub copy-iv : (iv : List ℕ) → length iv ≡ 16 → copy_at (replicate 16 0) 0 iv ≡ iv
unfolding copy_at
copy-iv iv h =
    ap₂ ◌++◌ (take-length iv 16 (omega (arith, h))) (ap (λ n. drop n (replicate 16 0)) all_of_it)
    ∙ append-nil iv
  where
    all_of_it : 0 + length iv ≡ 16
    all_of_it = omega (arith, h)

module _ (block : Block) (law : IsBlockCipher block) (iv : List ℕ) (iv_ok : IsBlock iv) where
  pub length-gost_ctr :
      (dst src : List ℕ) → length dst ≡ length src → length (gost_ctr block dst src iv) ≡ length dst
  unfolding gost_ctr
  length-gost_ctr dst src h =
      length-ctr_loop block (length src) (copy_at (replicate 16 0) 0 iv) dst src h

  pub gost_ctr-IsBytes :
      (dst src : List ℕ) → IsBytes dst → IsBytes src → IsBytes (gost_ctr block dst src iv)
  unfolding gost_ctr
  gost_ctr-IsBytes dst src p q =
      ctr_loop-IsBytes block law (length src) (copy_at (replicate 16 0) 0 iv) dst src
        (subst IsBlock (sym (copy-iv iv iv_ok.0)) iv_ok) p q

  -- If the cipher keeps blocks, the counter mode with the same IV of sixteen bytes undoes itself,
  -- for a text of any length and whatever destinations of that length held before.
  pub gost_ctr-gost_ctr :
      (dst dst' src : List ℕ)
      → length dst ≡ length src
      → length dst' ≡ length src
      → gost_ctr block dst' (gost_ctr block dst src iv) iv ≡ src
  unfolding gost_ctr
  gost_ctr-gost_ctr dst dst' src p q =
      let start = copy_at (replicate 16 0) 0 iv in
      let out = ctr_loop (length src) block start dst src in
      let same_size : length out ≡ length src =
        length-ctr_loop block (length src) start dst src p ∙ p in
      ap (λ f. ctr_loop f block start dst' out) same_size
      ∙ ctr_loop_back block law (length src) start dst dst' src
          (subst IsBlock (sym (copy-iv iv iv_ok.0)) iv_ok) (omega arith) p q
