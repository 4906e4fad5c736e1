-- ===== src/Crypto/Block.antt =====
-- What internal/crypto asks of a `cipher.Block`, and the helpers on byte slices that its modes share.
use kubebao.Common.{
  ℕ, suc, ◌+◌, ◌-◌, ◌≤◌, List, [], ◌∷◌, ◌++◌, ◌≡◌, refl, ap, ap₂, arith, length, take, drop,
}
use kubebao.Bits.Xor.{◌⊕◌, xor_cancel, xor-lt}
use kubebao.Kuznyechik.Cipher.{KuznyechikCipher, encrypt_words, load_block, store_block}
use kubebao.Kuznyechik.Bytes.{IsBytes, IsBlock, store_block-IsBlock}

-- `blockSize`, `ivSize` and `cmacTagSize`
abbrev pub block_size : ℕ
block_size = 16

-- `cipher.Block`, of which the modes use `Encrypt` on arrays of sixteen bytes. On these it returns
-- the new contents of its first argument, and does not panic.
pub record Block : Type 0 where
  pub encrypt : List ℕ → List ℕ

pub record IsBlockCipher (b : Block) : Type 0 where
  pub keeps_size : (src : List ℕ) → IsBlock src → IsBlock (b.encrypt src)

-- The cipher of internal/kuznyechik as a `cipher.Block`.
abbrev pub kuznyechik_block : KuznyechikCipher → Block
kuznyechik_block k = record { encrypt = λ src. store_block (encrypt_words k (load_block src)) }

pub kuznyechik_block-IsBlockCipher : (k : KuznyechikCipher) → IsBlockCipher (kuznyechik_block k)
kuznyechik_block-IsBlockCipher k = record {
  keeps_size = λ src h. store_block-IsBlock (encrypt_words k (load_block src));
}

-- `xorBytes(dst, a, b)`: the new contents of `dst`, which the loop leaves alone past the shortest.
unfoldable pub xor_bytes : List ℕ → List ℕ → List ℕ → List ℕ
xor_bytes [] a b = []
xor_bytes (d ∷ dst) [] b = d ∷ dst
xor_bytes (d ∷ dst) (x ∷ a) [] = d ∷ dst
xor_bytes (d ∷ dst) (x ∷ a) (y ∷ b) = (x ⊕ y) ∷ xor_bytes dst a b

-- `copy(dst[n:], src)`: the new contents of `dst`.
unfoldable pub copy_at : List ℕ → ℕ → List ℕ → List ℕ
copy_at dst n src = take n dst ++ take (length dst - n) src ++ drop (n + length src) dst

pub length-xor_bytes : (dst a b : List ℕ) → length (xor_bytes dst a b) ≡ length dst
unfolding xor_bytes
length-xor_bytes [] a b = refl
length-xor_bytes (d ∷ dst) [] b = refl
length-xor_bytes (d ∷ dst) (x ∷ a) [] = refl
length-xor_bytes (d ∷ dst) (x ∷ a) (y ∷ b) = ap suc (length-xor_bytes dst a b)

pub xor_bytes-IsBytes :
    (dst a b : List ℕ) → IsBytes dst → IsBytes a → IsBytes b → IsBytes (xor_bytes dst a b)
unfolding xor_bytes
xor_bytes-IsBytes [] a b p q r = tt
xor_bytes-IsBytes (d ∷ dst) [] b p q r = p
xor_bytes-IsBytes (d ∷ dst) (x ∷ a) [] p q r = p
xor_bytes-IsBytes (d ∷ dst) (x ∷ a) (y ∷ b) p q r =
    (xor-lt 8 x y q.0 r.0, xor_bytes-IsBytes dst a b p.1 q.1 r.1)

-- The old contents of a slice that is overwritten in full do not matter.
pub xor_bytes_any :
    (dst dst' a b : List ℕ)
    → length dst ≡ length dst'
    → length dst ≡ length a
    → length dst ≡ length b
    → xor_bytes dst a b ≡ xor_bytes dst' a b
unfolding xor_bytes
xor_bytes_any [] [] a b p q r = refl
xor_bytes_any [] (d ∷ dst') a b p q r = absurd (omega arith)
xor_bytes_any (d ∷ dst) [] a b p q r = absurd (omega arith)
xor_bytes_any (d ∷ dst) (d' ∷ dst') [] b p q r = absurd (omega arith)
xor_bytes_any (d ∷ dst) (d' ∷ dst') (x ∷ a) [] p q r = absurd (omega arith)
xor_bytes_any (d ∷ dst) (d' ∷ dst') (x ∷ a) (y ∷ b) p q r =
    ap (λ t. (x ⊕ y) ∷ t) (xor_bytes_any dst dst' a b (omega arith) (omega arith) (omega arith))

-- The same gamma twice gives the text back.
pub xor_bytes_back :
    (dst dst' src gamma : List ℕ)
    → length dst ≡ length src
    → length dst' ≡ length src
    → length src ≤ length gamma
    → xor_bytes dst' (xor_bytes dst src gamma) gamma ≡ src
unfolding xor_bytes
xor_bytes_back [] [] [] gamma p q r = refl
xor_bytes_back [] (d ∷ dst') [] gamma p q r = absurd (omega arith)
xor_bytes_back (d ∷ dst) dst' [] gamma p q r = absurd (omega arith)
xor_bytes_back [] dst' (x ∷ src) gamma p q r = absurd (omega arith)
xor_bytes_back (d ∷ dst) [] (x ∷ src) gamma p q r = absurd (omega arith)
xor_bytes_back (d ∷ dst) (d' ∷ dst') (x ∷ src) [] p q r = absurd (omega arith)
xor_bytes_back (d ∷ dst) (d' ∷ dst') (x ∷ src) (g ∷ gamma) p q r =
    ap₂ ◌∷◌ (xor_cancel x g)
      (xor_bytes_back dst dst' src gamma (omega arith) (omega arith) (omega arith))
