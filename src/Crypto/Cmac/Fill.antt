-- ===== src/Crypto/Cmac/Fill.antt =====
-- The parts that a cursor has still to give, as one stream of bytes, and what `fill` reads of it.
use kubebao.Common.{
  ℕ, ◌+◌, ◌-◌, ◌≤◌, List, [], ◌∷◌, ◌++◌, ◌≡◌, refl, sym, ap, ap₂, ◌∙◌, arith, append_assoc,
  append-nil, ltb, leb, length, take, drop, length-append, length-take, length-drop, take-append,
  take-append_le, take-append_ge, drop-append_le, drop-append_ge, drop-drop, take-length,
  take-append-drop, Bool-cases, inl, inr, subst,
}
use kubebao.Crypto.Block.{copy_at}
use kubebao.Crypto.Cmac.{Cursor, fill}

abbrev pub concat : List (List ℕ) → List ℕ
concat [] = []
concat (part ∷ parts) = part ++ concat parts

abbrev pub stream : List (List ℕ) → ℕ → List ℕ
stream [] off = []
stream (part ∷ parts) off = drop off part ++ concat parts

pub stream-zero : (parts : List (List ℕ)) → stream parts 0 ≡ concat parts
stream-zero [] = refl
stream-zero (part ∷ parts) = refl

-- A copy that fits.
copy_at-fits :
    (buf src : List ℕ) (n : ℕ)
    → n + length src ≤ length buf
    → copy_at buf n src ≡ take n buf ++ src ++ drop (n + length src) buf
unfolding copy_at
copy_at-fits buf src n h =
    ap (λ t. take n buf ++ t ++ drop (n + length src) buf)
      (take-length src (length buf - n) (omega arith))

module _ (buf src : List ℕ) (n : ℕ) (fits : n + length src ≤ length buf) where
  front_length : length (take n buf ++ src) ≡ n + length src
  front_length = length-append (take n buf) src ∙ omega (arith, length-take {0} n buf)

  take-copy_at : take (n + length src) (copy_at buf n src) ≡ take n buf ++ src
  take-copy_at =
      ap (take (n + length src)) (copy_at-fits buf src n fits)
      ∙ take-append (take n buf ++ src) (drop (n + length src) buf) (n + length src) front_length

  drop-copy_at : (m : ℕ) → n + length src ≤ m → drop m (copy_at buf n src) ≡ drop m buf
  drop-copy_at m h =
      ap (drop m) (copy_at-fits buf src n fits)
      ∙ drop-append_ge (take n buf ++ src) (drop (n + length src) buf) m
          (omega (arith, front_length))
      ∙ drop-drop (m - length (take n buf ++ src)) (n + length src) buf
      ∙ ap (λ k. drop k buf) (omega (arith, front_length))

  length-copy_at : length (copy_at buf n src) ≡ length buf
  length-copy_at =
      ap length (copy_at-fits buf src n fits)
      ∙ omega (
        arith,
        length-append {0} (take n buf ++ src) (drop (n + length src) buf),
        front_length,
        length-drop {0} (n + length src) buf,
      )

-- What is written: the stream's next bytes between what the buffer held before and behind them.
abbrev pub written : ℕ → List ℕ → ℕ → List ℕ → List ℕ
written limit buf n bytes = take n buf ++ take (limit - n) bytes ++ drop limit buf

pub record IsFilled (limit : ℕ) (buf : List ℕ) (n : ℕ) (bytes : List ℕ) (r : List ℕ × Cursor)
    : Type 0 where
  pub contents : r.0 ≡ written limit buf n bytes
  pub left_over : stream (r.1).parts (r.1).off ≡ drop (limit - n) bytes

-- The last part that is touched has all the bytes that are wanted.
IsFilled-stop :
    (limit n off : ℕ) (buf part : List ℕ) (parts : List (List ℕ))
    → n ≤ limit
    → limit ≤ length buf
    → limit - n ≤ length part - off
    → IsFilled limit buf n (stream (part ∷ parts) off) (
      copy_at buf n (take (limit - n) (drop off part)),
      record { parts = part ∷ parts; off = off + (limit - n) },
    )
IsFilled-stop limit n off buf part parts low room enough = record {
  contents =
      copy_at-fits buf (take (limit - n) (drop off part)) n (omega (arith, len))
      ∙ ap₂ (λ a b. (take n buf ++ a) ++ drop b buf)
          (sym (
            take-append_le (drop off part) (concat parts) (limit - n)
              (omega (arith, length-drop {0} off part))))
          (omega (arith, len));
  left_over =
      ap (λ t. t ++ concat parts) (sym (drop-drop (limit - n) off part))
      ∙ sym (
          drop-append_le (drop off part) (concat parts) (limit - n)
            (omega (arith, length-drop {0} off part)));
}
  where
    len : length (take (limit - n) (drop off part)) ≡ limit - n
    len = omega (arith, length-take {0} (limit - n) (drop off part), length-drop {0} off part)

-- A part that is used up, before the rest is filled from the later parts.
IsFilled-next :
    (limit n off : ℕ) (buf part : List ℕ) (parts : List (List ℕ)) (r : List ℕ × Cursor)
    → limit ≤ length buf
    → n + (length part - off) ≤ limit
    → IsFilled limit (copy_at buf n (drop off part)) (n + (length part - off)) (stream parts 0) r
    → IsFilled limit buf n (stream (part ∷ parts) off) r
IsFilled-next limit n off buf part parts r room low rest = record {
  contents =
      rest.contents
      ∙ ap₂ (λ a b. (a ++ take (limit - (n + (length part - off))) (stream parts 0)) ++ b)
          (ap (λ k. take k (copy_at buf n piece)) to_piece ∙ take-copy_at buf piece n fits)
          (drop-copy_at buf piece n fits limit (omega (arith, to_piece)))
      ∙ ap (λ t. t ++ drop limit buf)
          (append_assoc (take n buf) piece
              (take (limit - (n + (length part - off))) (stream parts 0))
            ∙ ap (λ t. take n buf ++ t) (sym taken));
  left_over =
      rest.left_over
      ∙ ap₂ drop left_count (stream-zero parts)
      ∙ sym (drop-append_ge piece (concat parts) (limit - n) (omega (arith, piece_length)));
}
  where
    piece : List ℕ
    piece = drop off part

    piece_length : length piece ≡ length part - off
    piece_length = length-drop off part

    to_piece : n + (length part - off) ≡ n + length piece
    to_piece = omega (arith, piece_length)

    fits : n + length piece ≤ length buf
    fits = omega (arith, piece_length)

    left_count : limit - (n + (length part - off)) ≡ limit - n - length piece
    left_count = omega (arith, piece_length)

    taken :
        take (limit - n) (piece ++ concat parts)
        ≡ piece ++ take (limit - (n + (length part - off))) (stream parts 0)
    taken =
        take-append_ge piece (concat parts) (limit - n) (omega (arith, piece_length))
        ∙ ap (λ t. piece ++ t) (ap₂ take (sym left_count) (sym (stream-zero parts)))

-- A full buffer reads nothing.
IsFilled-full :
    (limit n off : ℕ) (buf : List ℕ) (parts : List (List ℕ))
    → n ≡ limit
    → IsFilled limit buf n (stream parts off) (buf, record { parts = parts; off = off })
IsFilled-full limit n off buf parts h = record {
  contents =
      sym (take-append-drop limit buf)
      ∙ ap (λ t. t ++ drop limit buf)
          (sym (append-nil (take limit buf))
            ∙ ap₂ (λ a b. take a buf ++ take b (stream parts off)) (sym h) none_left);
  left_over = ap (λ k. drop k (stream parts off)) none_left;
}
  where
    none_left : 0 ≡ limit - n
    none_left = omega arith

-- If the buffer has room up to `limit` and the parts have as many bytes left, filling writes the
-- next bytes of the stream of parts behind the first n, leaves the others alone, and the cursor
-- then stands at the rest of the stream.
pub fill-IsFilled :
    (limit : ℕ) (buf : List ℕ) (n : ℕ) (parts : List (List ℕ)) (off : ℕ)
    → n ≤ limit
    → limit ≤ length buf
    → limit - n ≤ length (stream parts off)
    → IsFilled limit buf n (stream parts off) (fill limit buf n parts off)
unfolding fill
fill-IsFilled limit buf n [] off low room enough = IsFilled-full limit n off buf [] (omega arith)
fill-IsFilled limit buf n (part ∷ parts) off low room enough = elim (Bool-cases (ltb n limit)) [
  | inr full ↦ rw full (IsFilled-full limit n off buf (part ∷ parts) (ground arith))
  | inl more ↦ elim (Bool-cases (leb (length part - off) (limit - n))) [
    | inr enough_here ↦
        rw (more, enough_here) (IsFilled-stop limit n off buf part parts low room (ground arith))
    | inl used ↦
        rw (more, used)
          (IsFilled-next limit n off buf part parts
            (fill limit (copy_at buf n (drop off part)) (n + (length part - off)) parts 0) room
            (ground arith)
            (fill-IsFilled limit (copy_at buf n (drop off part)) (n + (length part - off)) parts 0
              (ground arith)
              (subst (λ l. limit ≤ l)
                (sym
                  (length-copy_at buf (drop off part) n (ground (arith, length-drop {0} off part))))
                room)
              (ground (
                arith,
                ap length (stream-zero parts),
                length-append {0} (drop off part) (concat parts),
                length-drop {0} off part,
              ))))
  ]
]
