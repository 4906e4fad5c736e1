-- ===== src/Kuznyechik/Bytes.antt =====
-- Byte slices and words: `binary.LittleEndian` both ways, and whole blocks.
use native.Mathlib.Numerals.{towards_suc}
use kubebao.Common.{
  ℕ, zero, suc, ◌+◌, ◌*◌, ◌/◌, ◌^◌, ◌<◌, List, [], ◌∷◌, ◌++◌, ◌≡◌, refl, sym, ap, ap₂, ◌∙◌, arith,
  length, take, drop, take-append-drop, length-take, length-drop,
}
use kubebao.Kuznyechik.Cipher.{Words, uint64, put_bytes, put_uint64, load_block, store_block}
use kubebao.Kuznyechik.Mix.{IsWords, join}

abbrev pub IsBytes : List ℕ → Type 0
IsBytes [] = Unit {0}
IsBytes (b ∷ bytes) = (b < 256) × IsBytes bytes

-- Sixteen bytes.
abbrev pub IsBlock : List ℕ → Type 0
IsBlock bytes = (length bytes ≡ 16) × IsBytes bytes

pub IsBytes-take : (n : ℕ) (bs : List ℕ) → IsBytes bs → IsBytes (take n bs)
IsBytes-take zero bs h = tt
IsBytes-take (suc n) [] h = tt
IsBytes-take (suc n) (b ∷ bs) h = (h.0, IsBytes-take n bs h.1)

pub IsBytes-drop : (n : ℕ) (bs : List ℕ) → IsBytes bs → IsBytes (drop n bs)
IsBytes-drop zero bs h = h
IsBytes-drop (suc n) [] h = tt
IsBytes-drop (suc n) (b ∷ bs) h = IsBytes-drop n bs h.1

pub IsBytes-append : (xs ys : List ℕ) → IsBytes xs → IsBytes ys → IsBytes (xs ++ ys)
IsBytes-append [] ys p q = q
IsBytes-append (x ∷ xs) ys p q = (p.0, IsBytes-append xs ys p.1 q)

-- Eight bits more.
pub power_byte : (n : ℕ) → 2 ^ (8 * suc n) ≡ 2 ^ (8 * n) * 256
power_byte n = ap (λ t. 2 ^ t) next ∙ simp towards_suc (omega arith)
  where
    next : 8 * suc n ≡ 8 * n + 8
    next = omega arith

pub uint64-lt : (n : ℕ) (bs : List ℕ) → IsBytes bs → uint64 (take n bs) < 2 ^ (8 * n)
unfolding uint64
uint64-lt zero bs h = omega arith
uint64-lt (suc n) [] h = omega (arith, power_byte n, uint64-lt n [] tt)
uint64-lt (suc n) (b ∷ bs) h = omega (arith, power_byte n, uint64-lt n bs h.1)

pub put_bytes-uint64 : (bs : List ℕ) → IsBytes bs → put_bytes (length bs) (uint64 bs) ≡ bs
unfolding uint64 put_bytes
put_bytes-uint64 [] h = refl
put_bytes-uint64 (b ∷ bs) h =
    ap₂ ◌∷◌ (omega arith) (ap (put_bytes (length bs)) (omega arith) ∙ put_bytes-uint64 bs h.1)

pub uint64-put_bytes : (n x : ℕ) → x < 2 ^ (8 * n) → uint64 (put_bytes n x) ≡ x
unfolding uint64 put_bytes
uint64-put_bytes zero x h = omega arith
uint64-put_bytes (suc n) x h =
    omega (arith, power_byte n, uint64-put_bytes n (x / 2 ^ 8) (omega (arith, power_byte n)))

pub put_bytes-IsBytes : (n x : ℕ) → IsBytes (put_bytes n x)
unfolding put_bytes
put_bytes-IsBytes zero x = tt
put_bytes-IsBytes (suc n) x = (omega arith, put_bytes-IsBytes n (x / 2 ^ 8))

pub load_block-IsWords : (src : List ℕ) → IsBytes src → IsWords (load_block src)
unfolding load_block
load_block-IsWords src h =
    (uint64-lt 8 (drop 0 src) h, uint64-lt 8 (drop 8 src) (IsBytes-drop 8 src h))

pub load_block-store_block : (x : Words) → IsWords x → load_block (store_block x) ≡ x
unfolding load_block store_block put_bytes
load_block-store_block x h =
    ap₂ (λ (a b : ℕ). (a, b)) (uint64-put_bytes 8 x.0 h.0) (uint64-put_bytes 8 x.1 h.1)

pub store_block-IsBlock : (x : Words) → IsBlock (store_block x)
unfolding store_block
store_block-IsBlock x = (
  unfold put_bytes in refl,
  IsBytes-append (put_uint64 x.0) (put_uint64 x.1) (put_bytes-IsBytes 8 x.0)
      (put_bytes-IsBytes 8 x.1),
)

take_all : (n : ℕ) (bs : List ℕ) → length bs ≡ n → take n bs ≡ bs
take_all zero [] h = refl
take_all zero (b ∷ bs) h = absurd (omega arith)
take_all (suc n) [] h = refl
take_all (suc n) (b ∷ bs) h = ap (λ t. b ∷ t) (take_all n bs (omega arith))

word_back : (bs : List ℕ) → length bs ≡ 8 → IsBytes bs → put_uint64 (uint64 bs) ≡ bs
word_back bs h ok = ap (λ n. put_bytes n (uint64 bs)) (sym h) ∙ put_bytes-uint64 bs ok

-- The halves of a block.
halves : (src : List ℕ) → length src ≡ 16 → take 8 src ++ take 8 (drop 8 src) ≡ src
halves src h =
    ap (λ t. take 8 src ++ t) (take_all 8 (drop 8 src) (omega (arith, length-drop 8 src)))
    ∙ take-append-drop 8 src

pub store_block-load_block : (src : List ℕ) → IsBlock src → store_block (load_block src) ≡ src
unfolding load_block store_block
store_block-load_block src h =
    ap₂ ◌++◌
      (word_back (take 8 src) (omega (arith, length-take 8 src, h.0)) (IsBytes-take 8 src h.1))
      (word_back (take 8 (drop 8 src))
        (omega (arith, length-take 8 (drop 8 src), length-drop 8 src, h.0))
        (IsBytes-take 8 (drop 8 src) (IsBytes-drop 8 src h.1)))
    ∙ halves src h.0

uint64-append : (xs ys : List ℕ) → uint64 (xs ++ ys) ≡ uint64 xs + uint64 ys * 2 ^ (8 * length xs)
unfolding uint64
uint64-append [] ys = omega arith
uint64-append (x ∷ xs) ys =
    omega (arith, uint64-append xs ys, ap (λ t. uint64 ys * t) (power_byte (length xs)))

-- The two words of a block are the little-endian number of its sixteen bytes.
pub join-load_block : (src : List ℕ) → length src ≡ 16 → join (load_block src) ≡ uint64 src
unfolding load_block
join-load_block src h =
    ap (λ n. uint64 (take 8 src) + uint64 (take 8 (drop 8 src)) * 2 ^ (8 * n)) eight
    ∙ sym (uint64-append (take 8 src) (take 8 (drop 8 src)))
    ∙ ap uint64 (halves src h)
  where
    eight : 8 ≡ length (take 8 src)
    eight = omega (arith, length-take 8 src, h)
