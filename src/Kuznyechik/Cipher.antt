-- ===== src/Kuznyechik/Cipher.antt =====
-- internal/kuznyechik/cipher.go. A word (uint64) is a number below 2 ^ 64; `[2]uint64` is a pair.
-- A byte slice is a list of numbers below 256.
use kubebao.Common.{
  ℕ, zero, suc, ◌+◌, ◌*◌, ◌/◌, ◌%◌, ◌^◌, bit_or, ◌&&◌, Option, none, some, List, [], ◌∷◌, ◌++◌, map,
  ◌==◌, if◌then◌else◌, length, get_or, take, drop,
}
use kubebao.Common.Result.{Result, ok, err}
use kubebao.Bits.Xor.{◌⊕◌}
use kubebao.Kuznyechik.Tables.{
  s_table, is_table, t_table, it_table, c_table, uint8, entry, byte_entry,
}

abbrev pub key_size : ℕ
key_size = 32

abbrev pub block_size : ℕ
block_size = 16

-- `[2]uint64`
abbrev pub Words : Type 0
Words = ℕ × ℕ

abbrev pub first : Words → ℕ
first w = w.0

abbrev pub second : Words → ℕ
second w = w.1

-- `x1 ^= k[0]; x2 ^= k[1]`
unfoldable pub xor_words : Words → Words → Words
xor_words x k = (x.0 ⊕ k.0, x.1 ⊕ k.1)

module _ (table : List (List Words)) (via : ℕ → ℕ) (word : Words → ℕ) where
  -- `table[i][via(uint8(x>>shift))][word]`
  abbrev pub term : ℕ → ℕ → ℕ → ℕ
  term i x shift = word (entry table i (via (uint8 (x / 2 ^ shift))))

  -- The sixteen terms that each line of `ls`, `ils` and `ilss` joins.
  unfoldable pub mix : ℕ → ℕ → ℕ
  mix x1 x2 =
      term 0 x1 0
      ⊕ term 1 x1 8
      ⊕ term 2 x1 16
      ⊕ term 3 x1 24
      ⊕ term 4 x1 32
      ⊕ term 5 x1 40
      ⊕ term 6 x1 48
      ⊕ term 7 x1 56
      ⊕ term 8 x2 0
      ⊕ term 9 x2 8
      ⊕ term 10 x2 16
      ⊕ term 11 x2 24
      ⊕ term 12 x2 32
      ⊕ term 13 x2 40
      ⊕ term 14 x2 48
      ⊕ term 15 x2 56

abbrev pub plain_index : ℕ → ℕ
plain_index v = v

unfoldable pub s_index : ℕ → ℕ
s_index v = byte_entry s_table v

unfoldable pub ls : Words → Words
ls x = (mix t_table plain_index first x.0 x.1, mix t_table plain_index second x.0 x.1)

unfoldable pub ils : Words → Words
ils x = (mix it_table plain_index first x.0 x.1, mix it_table plain_index second x.0 x.1)

unfoldable pub ilss : Words → Words
ilss x = (mix it_table s_index first x.0 x.1, mix it_table s_index second x.0 x.1)

-- `for i = 0; i < 64; i += 8 { res |= uint64(is[uint8(val>>i)]) << i }`, with the rounds left.
unfoldable pub isi_loop : ℕ → ℕ → ℕ → ℕ → ℕ
isi_loop zero i val res = res
isi_loop (suc left) i val res =
    isi_loop left (i + 8) val
      (bit_or res (byte_entry is_table (uint8 (val / 2 ^ i)) * 2 ^ i % 2 ^ 64))

unfoldable pub isi : ℕ → ℕ
unfolding isi_loop
isi val = isi_loop 8 0 val 0

-- The four words k00, k01 and k10, k11 of a key.
abbrev pub KeyPair : Type 0
KeyPair = Words × Words

abbrev pub c_entry : ℕ → Words
c_entry i = get_or c_table i (0, 0)

unfoldable pub f : KeyPair → ℕ → KeyPair
f k i = (xor_words (ls (xor_words k.0 (c_entry i))) k.1, k.0)

-- `for i := 0; i < 8; i += 2`, with the rounds left.
unfoldable pub fk_loop : ℕ → ℕ → KeyPair → ℕ → KeyPair
fk_loop zero i k ist = k
fk_loop (suc left) i k ist = fk_loop left (i + 2) (f (f k (i + ist)) (i + 1 + ist)) ist

unfoldable pub fk : KeyPair → ℕ → KeyPair
unfolding fk_loop
fk k ist = fk_loop 4 0 k ist

-- `erk` and `drk` are arrays of ten round keys.
pub record KuznyechikCipher : Type 0 where
  pub erk : List Words
  pub drk : List Words

abbrev pub round_key : List Words → ℕ → Words
round_key keys i = get_or keys i (0, 0)

-- `binary.LittleEndian.Uint64` and `PutUint64`
unfoldable pub uint64 : List ℕ → ℕ
uint64 [] = 0
uint64 (b ∷ bytes) = b + uint64 bytes * 2 ^ 8

unfoldable pub put_bytes : ℕ → ℕ → List ℕ
put_bytes zero x = []
put_bytes (suc n) x = uint8 x ∷ put_bytes n (x / 2 ^ 8)

abbrev pub put_uint64 : ℕ → List ℕ
put_uint64 x = put_bytes 8 x

-- `bytes[8*i : 8*i+8]` as a word
abbrev pub word_at : List ℕ → ℕ → ℕ
word_at bytes i = uint64 (take 8 (drop (8 * i) bytes))

pub data KeyError : Type 0 where
  invalid_key_size : ℕ → KeyError

-- The ten keys that `NewCipher` stores in `erk`.
unfoldable pub expand_key : KeyPair → List Words
expand_key k =
    let k1 = fk k 0 in
    let k2 = fk k1 8 in
    let k3 = fk k2 16 in
    let k4 = fk k3 24 in k.0 ∷ k.1 ∷ k1.0 ∷ k1.1 ∷ k2.0 ∷ k2.1 ∷ k3.0 ∷ k3.1 ∷ k4.0 ∷ k4.1 ∷ []

-- `drk[0] = erk[0]`, and `ilss` on the others.
unfoldable pub decryption_keys : List Words → List Words
decryption_keys [] = []
decryption_keys (first_key ∷ rest) = first_key ∷ map ilss rest

unfoldable pub new_cipher : List ℕ → Result KeyError KuznyechikCipher
unfolding expand_key decryption_keys
new_cipher key =
    if length key == key_size
    then (let erk = expand_key ((word_at key 0, word_at key 1), (word_at key 2, word_at key 3)) in
        ok (record { erk = erk; drk = decryption_keys erk }))
    else err (invalid_key_size (length key))

unfoldable pub zero_key : KuznyechikCipher → KuznyechikCipher
zero_key k = record { erk = map (λ w. (0, 0)) k.erk; drk = map (λ w. (0, 0)) k.drk }

-- `t1, t2 = ls(x1, x2); t1 ^= k.erk[i][0]; t2 ^= k.erk[i][1]`
abbrev pub encrypt_round : KuznyechikCipher → ℕ → Words → Words
encrypt_round k i x = xor_words (ls x) (round_key k.erk i)

unfoldable pub encrypt_words : KuznyechikCipher → Words → Words
encrypt_words k x =
    let x0 = xor_words x (round_key k.erk 0) in
    let t1 = encrypt_round k 1 x0 in
    let x2 = encrypt_round k 2 t1 in
    let t3 = encrypt_round k 3 x2 in
    let x4 = encrypt_round k 4 t3 in
    let t5 = encrypt_round k 5 x4 in
    let x6 = encrypt_round k 6 t5 in
    let t7 = encrypt_round k 7 x6 in let x8 = encrypt_round k 8 t7 in encrypt_round k 9 x8

abbrev pub decrypt_round : KuznyechikCipher → ℕ → Words → Words
decrypt_round k i x = xor_words (ils x) (round_key k.drk i)

unfoldable pub decrypt_words : KuznyechikCipher → Words → Words
decrypt_words k x =
    let t9 = xor_words (ilss x) (round_key k.drk 9) in
    let x8 = decrypt_round k 8 t9 in
    let t7 = decrypt_round k 7 x8 in
    let x6 = decrypt_round k 6 t7 in
    let t5 = decrypt_round k 5 x6 in
    let x4 = decrypt_round k 4 t5 in
    let t3 = decrypt_round k 3 x4 in
    let x2 = decrypt_round k 2 t3 in
    let t1 = decrypt_round k 1 x2 in xor_words (isi t1.0, isi t1.1) (round_key k.drk 0)

-- The sixteen bytes of two words, and back.
unfoldable pub load_block : List ℕ → Words
load_block src = (word_at src 0, word_at src 1)

unfoldable pub store_block : Words → List ℕ
store_block x = put_uint64 x.0 ++ put_uint64 x.1

-- The new contents of `dst`; `none` is the panic on a slice that is not of 16 bytes.
unfoldable pub encrypt : KuznyechikCipher → List ℕ → List ℕ → Option (List ℕ)
unfolding encrypt_words load_block store_block
encrypt k dst src =
    if length src == 16 && length dst == 16
    then some (store_block (encrypt_words k (load_block src)))
    else none

unfoldable pub decrypt : KuznyechikCipher → List ℕ → List ℕ → Option (List ℕ)
unfolding decrypt_words load_block store_block
decrypt k dst src =
    if length src == 16 && length dst == 16
    then some (store_block (decrypt_words k (load_block src)))
    else none
