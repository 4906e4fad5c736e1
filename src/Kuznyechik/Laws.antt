-- ===== src/Kuznyechik/Laws.antt =====
-- What `NewCipher`, `Encrypt` and `Decrypt` guarantee, on byte slices.
use kubebao.Common.{ℕ, List, some, ◌≡◌, ◌≢◌, sym, ap, ap₂, subst, ◌∙◌, arith, map, length, drop}
use kubebao.Common.Result.{ok, err}
use kubebao.Kuznyechik.Cipher.{
  Words, KeyPair, KuznyechikCipher, invalid_key_size, key_size, new_cipher, expand_key, encrypt,
  decrypt, encrypt_words, decrypt_words, load_block, store_block, uint64, word_at,
}
use kubebao.Kuznyechik.Gost.{gost_encrypt, gost_round_keys}
use kubebao.Kuznyechik.Mix.{IsWords, join}
use kubebao.Kuznyechik.Correct.{
  AllWords, cipher_of, encrypt_words-IsWords, encrypt_words-gost_encrypt,
  decrypt_words-encrypt_words,
}
use kubebao.Kuznyechik.Schedule.{
  IsKeyPair, join_pair, expand_key-AllWords, expand_key_lem, second_pair, third_pair, fourth_pair,
  fifth_pair,
}
use kubebao.Kuznyechik.Bytes.{
  IsBytes, IsBlock, IsBytes-drop, uint64-lt, load_block-IsWords, load_block-store_block,
  store_block-IsBlock, store_block-load_block, join-load_block,
}

-- The four words that `NewCipher` reads from the key.
abbrev pub key_pair : List ℕ → KeyPair
key_pair key = ((word_at key 0, word_at key 1), (word_at key 2, word_at key 3))

pub key_pair-IsKeyPair : (key : List ℕ) → IsBytes key → IsKeyPair (key_pair key)
key_pair-IsKeyPair key h = (
  (uint64-lt 8 (drop 0 key) h, uint64-lt 8 (drop 8 key) (IsBytes-drop 8 key h)),
  (
    uint64-lt 8 (drop 16 key) (IsBytes-drop 16 key h),
    uint64-lt 8 (drop 24 key) (IsBytes-drop 24 key h),
  ),
)

-- The cipher that a key of the right size gives.
abbrev pub key_cipher : List ℕ → KuznyechikCipher
key_cipher key = cipher_of (expand_key (key_pair key))

-- A key of 32 bytes is accepted, and one of any other size refused with that size.
pub new_cipher_lem :
    (key : List ℕ)
    → (length key ≡ key_size → new_cipher key ≡ ok (key_cipher key))
      × (length key ≢ key_size → new_cipher key ≡ err (invalid_key_size (length key)))
unfolding new_cipher
new_cipher_lem key = (λ h. ground arith, λ h. ground arith)

-- `Encrypt` and `Decrypt` return exactly on slices of sixteen bytes, and panic on all others.
pub encrypt-defined :
    (k : KuznyechikCipher) (dst src : List ℕ)
    → length src ≡ 16
    → length dst ≡ 16
    → encrypt k dst src ≡ some (store_block (encrypt_words k (load_block src)))
unfolding encrypt
encrypt-defined k dst src p q = ground arith

pub decrypt-defined :
    (k : KuznyechikCipher) (dst src : List ℕ)
    → length src ≡ 16
    → length dst ≡ 16
    → decrypt k dst src ≡ some (store_block (decrypt_words k (load_block src)))
unfolding decrypt
decrypt-defined k dst src p q = ground arith

module _ (key : List ℕ) (key_bytes : IsBytes key) where
  pair_ok : IsKeyPair (key_pair key)
  pair_ok = key_pair-IsKeyPair key key_bytes

  keys_ok : AllWords (expand_key (key_pair key))
  keys_ok = expand_key-AllWords (key_pair key) pair_ok

  module _ (x : Words) (ok : IsWords x) where
    key_cipher-IsWords : IsWords (encrypt_words (key_cipher key) x)
    unfolding expand_key
    key_cipher-IsWords =
        let p = key_pair key in
        encrypt_words-IsWords p.0 p.1 (second_pair p).0 (second_pair p).1 (third_pair p).0
          (third_pair p).1 (fourth_pair p).0 (fourth_pair p).1 (fifth_pair p).0 (fifth_pair p).1
          keys_ok x ok

    key_cipher-gost_encrypt :
        join (encrypt_words (key_cipher key) x)
        ≡ gost_encrypt (map join (expand_key (key_pair key))) (join x)
    unfolding expand_key
    key_cipher-gost_encrypt =
        let p = key_pair key in
        encrypt_words-gost_encrypt p.0 p.1 (second_pair p).0 (second_pair p).1 (third_pair p).0
          (third_pair p).1 (fourth_pair p).0 (fourth_pair p).1 (fifth_pair p).0 (fifth_pair p).1
          keys_ok x ok

    key_cipher_back : decrypt_words (key_cipher key) (encrypt_words (key_cipher key) x) ≡ x
    unfolding expand_key
    key_cipher_back =
        let p = key_pair key in
        decrypt_words-encrypt_words p.0 p.1 (second_pair p).0 (second_pair p).1 (third_pair p).0
          (third_pair p).1 (fourth_pair p).0 (fourth_pair p).1 (fifth_pair p).0 (fifth_pair p).1
          keys_ok x ok

-- A cipher that `NewCipher` made from 32 bytes.
abbrev pub IsMadeFrom : List ℕ → KuznyechikCipher → Type 0
IsMadeFrom key k = IsBytes key × (new_cipher key ≡ ok k)

made_of : (key : List ℕ) (k : KuznyechikCipher) → new_cipher key ≡ ok k → k ≡ key_cipher key
unfolding new_cipher
made_of key k made = ground arith

-- A block as a number, after it is stored.
uint64-store_block : (x : Words) → IsWords x → uint64 (store_block x) ≡ join x
uint64-store_block x fits =
    sym (join-load_block (store_block x) (store_block-IsBlock x).0)
    ∙ ap join (load_block-store_block x fits)

-- The encryption of the standard, on sixteen bytes under a 32-byte key.
abbrev pub Encrypts : List ℕ → KuznyechikCipher → List ℕ → List ℕ → Type 0
Encrypts key k dst src =
    (out : List ℕ) × (encrypt k dst src ≡ some out)
    × IsBlock out
    × (uint64 out ≡ gost_encrypt (gost_round_keys (join_pair (key_pair key))) (uint64 src))

pub key_cipher-gost_block :
    (key src : List ℕ)
    → IsBytes key
    → IsBlock src
    → uint64 (store_block (encrypt_words (key_cipher key) (load_block src)))
      ≡ gost_encrypt (gost_round_keys (join_pair (key_pair key))) (uint64 src)
key_cipher-gost_block key src key_bytes block =
    let x_ok = load_block-IsWords src block.1 in
    uint64-store_block (encrypt_words (key_cipher key) (load_block src))
      (key_cipher-IsWords key key_bytes (load_block src) x_ok)
    ∙ key_cipher-gost_encrypt key key_bytes (load_block src) x_ok
    ∙ ap₂ gost_encrypt (expand_key_lem (key_pair key) (pair_ok key key_bytes))
        (join-load_block src block.0)

key_cipher-Encrypts :
    (key : List ℕ) (dst src : List ℕ)
    → IsBytes key
    → IsBlock src
    → length dst ≡ 16
    → Encrypts key (key_cipher key) dst src
key_cipher-Encrypts key dst src key_bytes block room = (
  store_block y,
  encrypt-defined (key_cipher key) dst src block.0 room,
  store_block-IsBlock y,
  key_cipher-gost_block key src key_bytes block,
)
  where
    y : Words
    y = encrypt_words (key_cipher key) (load_block src)

-- `Encrypt` under the cipher of a 32-byte key writes sixteen bytes: the encryption of the block
-- that the standard defines, with the standard's round keys. Blocks and the halves of the key are
-- read as little-endian numbers.
pub encrypt-gost_encrypt :
    (key : List ℕ) (k : KuznyechikCipher) (dst src : List ℕ)
    → IsMadeFrom key k
    → IsBlock src
    → length dst ≡ 16
    → Encrypts key k dst src
encrypt-gost_encrypt key k dst src made block room =
    subst (λ c. Encrypts key c dst src) (sym (made_of key k made.1))
      (key_cipher-Encrypts key dst src made.0 block room)

abbrev pub DecryptsBack : KuznyechikCipher → List ℕ → List ℕ → List ℕ → Type 0
DecryptsBack k dst src dst' =
    (out : List ℕ) × (encrypt k dst src ≡ some out) × (decrypt k dst' out ≡ some src)

key_cipher-DecryptsBack :
    (key : List ℕ) (dst src dst' : List ℕ)
    → IsBytes key
    → IsBlock src
    → length dst ≡ 16
    → length dst' ≡ 16
    → DecryptsBack (key_cipher key) dst src dst'
key_cipher-DecryptsBack key dst src dst' key_bytes block room room' = (
  store_block y,
  encrypt-defined (key_cipher key) dst src block.0 room,
  decrypt-defined (key_cipher key) dst' (store_block y) (store_block-IsBlock y).0 room'
      ∙ ap (λ x. some (store_block (decrypt_words (key_cipher key) x)))
          (load_block-store_block y (key_cipher-IsWords key key_bytes (load_block src) x_ok))
      ∙ ap (λ x. some (store_block x)) (key_cipher_back key key_bytes (load_block src) x_ok)
      ∙ ap some (store_block-load_block src block),
)
  where
    x_ok : IsWords (load_block src)
    x_ok = load_block-IsWords src block.1

    y : Words
    y = encrypt_words (key_cipher key) (load_block src)

-- Under the cipher of a 32-byte key `Encrypt` returns on every block of sixteen bytes, and
-- `Decrypt` of its result returns the block.
pub decrypt-encrypt :
    (key : List ℕ) (k : KuznyechikCipher) (dst src dst' : List ℕ)
    → IsMadeFrom key k
    → IsBlock src
    → length dst ≡ 16
    → length dst' ≡ 16
    → DecryptsBack k dst src dst'
decrypt-encrypt key k dst src dst' made block room room' =
    subst (λ c. DecryptsBack c dst src dst') (sym (made_of key k made.1))
      (key_cipher-DecryptsBack key dst src dst' made.0 block room room')
