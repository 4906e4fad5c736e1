-- ===== src/Crypto/Cmac/Reference.antt =====
-- CMAC of one message, as GOST R 34.13-2015 defines it, beside `gostCMAC` of its parts.
use kubebao.Common.{
  ℕ, zero, suc, ◌-◌, ◌*◌, ◌%◌, ◌≤◌, ◌<◌, List, [], ◌∷◌, ◌++◌, ◌≡◌, refl, sym, ap, ap₂, ◌∙◌, subst,
  arith, append-nil, ltb, ◌==◌, ◌&&◌, if◌then◌else◌, length, take, drop, set, replicate,
  length-append, length-take, length-drop, drop-drop, take-length, Bool, true, false, Bool-cases,
  inl, inr,
}
use kubebao.Crypto.Block.{Block, xor_bytes}
use kubebao.Crypto.Cmac.{
  Cursor, MacState, zero_block, fill_block, fill_block_partial, mac_loop, last_block, num_blocks,
  total_length, start_state, cmac_generate_subkeys, gost_cmac,
}
use kubebao.Crypto.Cmac.Fill.{concat, stream, fill-IsFilled, stream-zero}

-- The message authentication chain over k full blocks.
unfoldable pub chain : ℕ → Block → List ℕ → List ℕ → List ℕ
chain zero block x msg = x
chain (suc k) block x msg =
    chain k block (block.encrypt (xor_bytes x x (take 16 msg))) (drop 16 msg)

-- One zero bit for each missing bit, behind a one.
abbrev pub pad : List ℕ → List ℕ
pad tail = tail ++ 0x80 ∷ replicate (15 - length tail) 0

-- The last block: whole and masked with the first subkey, or padded and masked with the second.
unfoldable pub masked : List ℕ → List ℕ → List ℕ × List ℕ → List ℕ
masked x tail keys =
    if length tail == 16
    then (let y = xor_bytes x x tail in xor_bytes y y keys.0)
    else (let y = xor_bytes x x (pad tail) in xor_bytes y y keys.1)

-- The blocks before the last one.
abbrev pub full_blocks : List ℕ → ℕ
full_blocks msg = num_blocks (length msg) - 1

unfoldable pub cmac_reference : Block → List ℕ → List ℕ
unfolding chain masked
cmac_reference block msg = block.encrypt (
    masked (chain (full_blocks msg) block zero_block msg) (drop (full_blocks msg * 16) msg)
      (cmac_generate_subkeys block))

abbrev pub left_of : Cursor → List ℕ
left_of c = stream c.parts c.off

empty_drop : (n : ℕ) (bs : List ℕ) → length bs ≤ n → drop n bs ≡ []
empty_drop zero [] h = refl
empty_drop zero (b ∷ bs) h = absurd (omega arith)
empty_drop (suc n) [] h = refl
empty_drop (suc n) (b ∷ bs) h = empty_drop n bs (omega arith)

module _ (buf : List ℕ) (c : Cursor) (size : length buf ≡ 16) where
  -- `fillBlock` reads the next sixteen bytes.
  fill_block_lem :
      16 ≤ length (left_of c)
      → ((fill_block buf c).0 ≡ take 16 (left_of c))
        × (left_of (fill_block buf c).1 ≡ drop 16 (left_of c))
  unfolding fill_block
  fill_block_lem enough =
      let f = fill-IsFilled 16 buf 0 c.parts c.off (omega arith) (omega arith) enough in
      (
        f.contents
            ∙ ap (λ t. take 16 (left_of c) ++ t) (empty_drop 16 buf (omega arith))
            ∙ append-nil (take 16 (left_of c)),
        f.left_over,
      )

-- `fillBlockPartial` into an empty block.
fill_block_partial_lem :
    (c : Cursor) (remaining : ℕ)
    → remaining ≤ 16
    → length (left_of c) ≡ remaining
    → (fill_block_partial zero_block c remaining).0 ≡ left_of c ++ drop remaining zero_block
unfolding fill_block_partial
fill_block_partial_lem c remaining low size =
    (fill-IsFilled remaining zero_block 0 c.parts c.off (omega arith) (omega arith)
      (omega arith)).contents
    ∙ ap (λ t. t ++ drop remaining zero_block)
        (take-length (left_of c) (remaining - 0) (omega arith))

record IsAfter (k : ℕ) (block : Block) (s t : MacState) : Type 0 where
  pub tag : t.x ≡ chain k block s.x (left_of s.cursor)
  pub rest : left_of t.cursor ≡ drop (k * 16) (left_of s.cursor)

-- The main loop runs the chain along the stream.
mac_loop-IsAfter :
    (k : ℕ) (block : Block) (s : MacState)
    → length s.buf ≡ 16
    → k * 16 ≤ length (left_of s.cursor)
    → IsAfter k block s (mac_loop k block s)
unfolding mac_loop chain
mac_loop-IsAfter zero block s size enough = record { tag = refl; rest = refl }
mac_loop-IsAfter (suc k) block s size enough =
    let f = fill_block_lem s.buf s.cursor size (omega arith) in
    let t : MacState = record {
      x = block.encrypt (xor_bytes s.x s.x (fill_block s.buf s.cursor).0);
      buf = (fill_block s.buf s.cursor).0;
      cursor = (fill_block s.buf s.cursor).1;
    } in
    let ih =
      mac_loop-IsAfter k block t
        (ap length f.0 ∙ omega (arith, length-take {0} 16 (left_of s.cursor)))
        (subst (λ l. k * 16 ≤ length l) (sym f.1)
          (omega (arith, length-drop {0} 16 (left_of s.cursor)))) in
    record {
      tag = ih.tag ∙ ap₂ (λ a b. chain k block (block.encrypt (xor_bytes s.x s.x a)) b) f.0 f.1;
      rest =
          ih.rest
          ∙ ap (drop (k * 16)) f.1
          ∙ drop-drop (k * 16) 16 (left_of s.cursor)
          ∙ ap (λ n. drop n (left_of s.cursor)) (omega arith);
    }

set-append : (xs ys : List ℕ) (y v : ℕ) → set (xs ++ y ∷ ys) (length xs) v ≡ xs ++ v ∷ ys
set-append [] ys y v = refl
set-append (x ∷ xs) ys y v = ap (λ t. x ∷ t) (set-append xs ys y v)

abbrev zeros : ℕ → List ℕ
zeros n = replicate n 0

drop-zeros : (n k : ℕ) → drop n (zeros k) ≡ zeros (k - n)
drop-zeros zero k = let e : k ≡ k - 0 = omega arith in ap zeros e
drop-zeros (suc n) zero = let e : 0 ≡ 0 - suc n = omega arith in ap zeros e
drop-zeros (suc n) (suc k) =
    let e : k - n ≡ suc k - suc n = omega arith in drop-zeros n k ∙ ap zeros e

empty_list : (bs : List ℕ) → length bs ≡ 0 → bs ≡ []
empty_list [] h = refl
empty_list (b ∷ bs) h = absurd (omega arith)

-- The two ways to mask: the block as it is, or its padded form.
abbrev final_mask : Bool → List ℕ → List ℕ × List ℕ → List ℕ → List ℕ → List ℕ
final_mask complete x keys whole padded =
    if complete
    then xor_bytes (xor_bytes x x whole) (xor_bytes x x whole) keys.0
    else xor_bytes (xor_bytes x x padded) (xor_bytes x x padded) keys.1

module _ (s : MacState) (remaining : ℕ) (size : length (left_of s.cursor) ≡ remaining)
    (low : remaining ≤ 16) where
  abbrev filled : List ℕ
  filled =
      if ltb 0 remaining then (fill_block_partial zero_block s.cursor remaining).0 else zero_block

  filled_lem : filled ≡ left_of s.cursor ++ drop remaining zero_block
  filled_lem = elim (Bool-cases (ltb 0 remaining)) [
    | inl some_left ↦ rw some_left (fill_block_partial_lem s.cursor remaining low size)
    | inr nothing ↦ rw nothing (nothing_left (ground arith))
  ]
    where
      nothing_left : remaining ≡ 0 → zero_block ≡ left_of s.cursor ++ drop remaining zero_block
      nothing_left none =
          ap (λ n. drop n zero_block) (sym none)
          ∙ ap (λ t. t ++ drop remaining zero_block)
              (sym (empty_list (left_of s.cursor) (size ∙ none)))

  padded_lem : remaining < 16 → set filled remaining 0x80 ≡ pad (left_of s.cursor)
  padded_lem short =
      ap₂ (λ bs n. set bs n 0x80) (filled_lem ∙ ap (λ t. left_of s.cursor ++ t) gap) (sym size)
      ∙ set-append (left_of s.cursor) (replicate (15 - remaining) 0) 0 0x80
      ∙ ap (λ n. left_of s.cursor ++ 0x80 ∷ replicate (15 - n) 0) (sym size)
    where
      one_more : 16 - remaining ≡ suc (15 - remaining)
      one_more = omega arith

      gap : drop remaining zero_block ≡ 0 ∷ zeros (15 - remaining)
      gap = drop-zeros remaining 16 ∙ ap zeros one_more

  abbrev padded : List ℕ
  padded = if ltb remaining 16 then set filled remaining 0x80 else filled

  tail_size : (length (left_of s.cursor) == 16) ≡ (remaining == 16)
  tail_size = ap (λ n. n == 16) size

  last_block_lem :
      (complete : Bool) (keys : List ℕ × List ℕ)
      → complete ≡ (remaining == 16)
      → last_block s remaining complete keys ≡ masked s.x (left_of s.cursor) keys
  unfolding last_block masked
  last_block_lem complete keys done = elim (Bool-cases (remaining == 16)) [
    | inl whole ↦
        ap (λ c. final_mask c s.x keys filled padded) (done ∙ whole)
        ∙ ap (λ a. final_mask true s.x keys a padded) (filled_lem ∙ as_whole whole)
        ∙ sym (
            ap (λ c. final_mask c s.x keys (left_of s.cursor) (pad (left_of s.cursor)))
              (tail_size ∙ whole))
    | inr short ↦
        ap (λ c. final_mask c s.x keys filled padded) (done ∙ short)
        ∙ ap (λ b. final_mask false s.x keys filled b) (as_short short)
        ∙ sym (
            ap (λ c. final_mask c s.x keys (left_of s.cursor) (pad (left_of s.cursor)))
              (tail_size ∙ short))
  ]
    where
      as_whole :
          (remaining == 16) ≡ true
          → left_of s.cursor ++ drop remaining zero_block ≡ left_of s.cursor
      as_whole e =
          ap (λ t. left_of s.cursor ++ t) (empty_drop remaining zero_block (ground arith))
          ∙ append-nil (left_of s.cursor)

      as_short : (remaining == 16) ≡ false → padded ≡ pad (left_of s.cursor)
      as_short e =
          let lt : ltb remaining 16 ≡ true = ground arith in
          ap (λ c. if c then set filled remaining 0x80 else filled) lt ∙ padded_lem (ground arith)

-- The lengths that the code computes with.
length-concat : (parts : List (List ℕ)) → total_length parts ≡ length (concat parts)
length-concat [] = refl
length-concat (part ∷ parts) =
    omega (arith, length-append {0} part (concat parts), length-concat parts)

rounds_fit : (total : ℕ) → (num_blocks total - 1) * 16 ≤ total
rounds_fit total = ground arith

rest_fits : (total : ℕ) → total - (num_blocks total - 1) * 16 ≤ 16
rest_fits total = ground arith

complete_lem :
    (total : ℕ) → (ltb 0 total && total % 16 == 0) ≡ (total - (num_blocks total - 1) * 16 == 16)
complete_lem total = ground arith

-- For every number of parts of every length, `gostCMAC` is CMAC of their concatenation, whole
-- blocks chained, and the last one padded or not and masked with its subkey.
pub gost_cmac-cmac_reference :
    (block : Block) (parts : List (List ℕ))
    → gost_cmac block parts ≡ cmac_reference block (concat parts)
unfolding gost_cmac cmac_reference
gost_cmac-cmac_reference block parts = ap block.encrypt (
    last_block_lem after remaining tail_length (rest_fits total) (ltb 0 total && total % 16 == 0)
      keys (complete_lem total)
    ∙ ap₂ (λ x t. masked x t keys)
        (loop.tag
          ∙ ap₂ (λ n m. chain (num_blocks n - 1) block zero_block m) whole (stream-zero parts))
        (loop.rest ∙ ap₂ (λ n m. drop ((num_blocks n - 1) * 16) m) whole (stream-zero parts)))
  where
    total : ℕ
    total = total_length parts

    remaining : ℕ
    remaining = total - (num_blocks total - 1) * 16

    keys : List ℕ × List ℕ
    keys = cmac_generate_subkeys block

    after : MacState
    after = mac_loop (num_blocks total - 1) block (start_state parts)

    whole : total ≡ length (concat parts)
    whole = length-concat parts

    stream_length : length (stream parts 0) ≡ total
    stream_length = ap length (stream-zero parts) ∙ sym whole

    loop : IsAfter (num_blocks total - 1) block (start_state parts) after
    loop =
        mac_loop-IsAfter (num_blocks total - 1) block (start_state parts) refl
          (subst (λ l. (num_blocks total - 1) * 16 ≤ l) (sym stream_length) (rounds_fit total))

    tail_length : length (left_of after.cursor) ≡ remaining
    tail_length =
        ap length loop.rest
        ∙ length-drop ((num_blocks total - 1) * 16) (stream parts 0)
        ∙ ap (λ l. l - (num_blocks total - 1) * 16) stream_length
