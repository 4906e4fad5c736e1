-- ===== src/Crypto/Examples.antt =====
-- Inputs at which the theorems about internal/crypto/kuznyechik_mgm.go are applied.
use kubebao.Common.{
  get_or, take, ℕ, ◌+◌, ◌*◌, ◌%◌, ◌^◌, arith, ◌≡◌, ◌≢◌, ◌++◌, refl, List, [], ◌∷◌, some, length,
  replicate,
}
use kubebao.Common.Result.{ok, err}
use kubebao.Kuznyechik.Laws.{key_cipher}
use kubebao.Kuznyechik.Examples.{sample_key, sample_key-IsBytes, sample_plain, sample_plain-IsBlock}
use kubebao.Crypto.Block.{Block, IsBlockCipher, kuznyechik_block, kuznyechik_block-IsBlockCipher}
use kubebao.Crypto.Ctr.{gost_ctr, ctr_loop, gost_ctr_increment}
use kubebao.Crypto.Ctr.Counter.{gost_ctr_increment_lem, low_number}
use kubebao.Crypto.Ctr.Laws.{gost_ctr-gost_ctr, ctr_loop-fuel}
use kubebao.Crypto.Cmac.{
  gost_cmac, cmac_generate_subkeys, fill, zero_block, shift_left_one, mac_loop, last_block,
}
use kubebao.Crypto.Cmac.Fill.{concat, stream, IsFilled, fill-IsFilled}
use kubebao.Crypto.Cmac.Reference.{cmac_reference, gost_cmac-cmac_reference}
use kubebao.Crypto.Cmac.Subkeys.{double, big_endian, cmac_generate_subkeys_lem, shift_left_one_lem}
use kubebao.Crypto.Aead.{
  KuznyechikAead, auth_failed, encrypt, decrypt, overhead, new_kuznyechik_aead, iv_of,
}
use kubebao.Crypto.Aead.Forgery.{decrypt-encrypt_forged}
use kubebao.Crypto.Aead.Derive.{gost_block, new_kuznyechik_aead-gost_block}
use kubebao.Crypto.Ctr.Stream.{IsMasked, gost_ctr-IsMasked}
use kubebao.Kuznyechik.Cipher.{uint64}
use kubebao.Crypto.Aead.Laws.{IsAead, decrypt-encrypt-some, encrypt-decrypt}

abbrev sample_block : Block
sample_block = kuznyechik_block (key_cipher sample_key)

sample_law : IsBlockCipher sample_block
sample_law = kuznyechik_block-IsBlockCipher (key_cipher sample_key)

abbrev sample_text : List ℕ
sample_text = 1 ∷ 2 ∷ 3 ∷ sample_key

gost_ctr-gost_ctr_example :
    gost_ctr sample_block sample_text
      (gost_ctr sample_block sample_text sample_text sample_plain)
      sample_plain
    ≡ sample_text
gost_ctr-gost_ctr_example =
    gost_ctr-gost_ctr sample_block sample_law sample_plain sample_plain-IsBlock sample_text
      sample_text sample_text refl refl

ctr_loop-fuel_example :
    ctr_loop 35 sample_block sample_plain sample_text sample_text
    ≡ ctr_loop 100 sample_block sample_plain sample_text sample_text
ctr_loop-fuel_example =
    ctr_loop-fuel sample_block 35 100 sample_plain sample_text sample_text (omega arith)
      (omega arith)

-- The lower half carries through all of its bytes.
abbrev full_counter : List ℕ
full_counter = 7 ∷ 0 ∷ 0 ∷ 0 ∷ 0 ∷ 0 ∷ 0 ∷ 255 ∷ replicate 8 255

gost_ctr_increment_lem_example :
    (low_number 8 (gost_ctr_increment full_counter) ≡ (low_number 8 full_counter + 1) % 2 ^ 64)
    × (take 8 (gost_ctr_increment full_counter) ≡ take 8 full_counter)
gost_ctr_increment_lem_example = gost_ctr_increment_lem full_counter (refl, omega arith)

gost_cmac-cmac_reference_example :
    gost_cmac sample_block (sample_plain ∷ sample_text ∷ [])
    ≡ cmac_reference sample_block (concat (sample_plain ∷ sample_text ∷ []))
gost_cmac-cmac_reference_example =
    gost_cmac-cmac_reference sample_block (sample_plain ∷ sample_text ∷ [])

fill-IsFilled_example :
    IsFilled 16 zero_block 0
      (stream (sample_plain ∷ sample_text ∷ []) 3)
      (fill 16 zero_block 0 (sample_plain ∷ sample_text ∷ []) 3)
fill-IsFilled_example =
    fill-IsFilled 16 zero_block 0 (sample_plain ∷ sample_text ∷ []) 3 (omega arith) (omega arith)
      (omega arith)

cmac_generate_subkeys_lem_example :
    (big_endian (cmac_generate_subkeys sample_block).0
      ≡ double (big_endian (sample_block.encrypt zero_block)))
    × (big_endian (cmac_generate_subkeys sample_block).1
        ≡ double (big_endian (cmac_generate_subkeys sample_block).0))
cmac_generate_subkeys_lem_example = cmac_generate_subkeys_lem sample_block sample_law

shift_left_one_lem_example :
    big_endian (shift_left_one sample_key).0
      + (shift_left_one sample_key).1 * 2 ^ (8 * length sample_key)
    ≡ 2 * big_endian sample_key
shift_left_one_lem_example = shift_left_one_lem sample_key sample_key-IsBytes

-- Both ciphers under the same key.
abbrev sample_aead : KuznyechikAead
sample_aead = record { enc_block = sample_block; mac_block = sample_block }

sample_aead-IsAead : IsAead sample_aead
sample_aead-IsAead = record { enc = sample_law; mac = sample_law }

decrypt-encrypt-some_example :
    (out : List ℕ) × (encrypt sample_aead (some sample_plain) sample_text ≡ ok out)
    × (length out ≡ overhead + length sample_text)
    × (decrypt sample_aead out ≡ ok sample_text)
decrypt-encrypt-some_example =
    decrypt-encrypt-some sample_aead sample_aead-IsAead sample_plain sample_text
      sample_plain-IsBlock (omega arith)

-- The block cipher that leaves blocks as they are, under which results are short to compute.
abbrev identity_block : Block
identity_block = record { encrypt = λ src. src }

abbrev identity_aead : KuznyechikAead
identity_aead = record { enc_block = identity_block; mac_block = identity_block }

identity_aead-IsAead : IsAead identity_aead
identity_aead-IsAead = record {
  enc = record { keeps_size = λ src h. h };
  mac = record { keeps_size = λ src h. h };
}

abbrev short_text : List ℕ
short_text = 5 ∷ 6 ∷ []

-- `Encrypt` of the short text under an IV of zeros, and the same with another tag.
abbrev short_sealed : List ℕ
short_sealed = 1 ∷ zero_block ++ 5 ∷ 6 ∷ 5 ∷ 6 ∷ 128 ∷ replicate 13 0

abbrev short_forged : List ℕ
short_forged = 1 ∷ zero_block ++ 5 ∷ 6 ∷ 5 ∷ 6 ∷ 129 ∷ replicate 13 0

short_opens : decrypt identity_aead short_sealed ≡ ok short_text
unfolding decrypt gost_cmac gost_ctr gost_ctr_increment mac_loop last_block fill
short_opens = refl

encrypt-decrypt_example :
    encrypt identity_aead (some (iv_of short_sealed)) short_text ≡ ok short_sealed
encrypt-decrypt_example =
    encrypt-decrypt identity_aead identity_aead-IsAead short_sealed short_text (omega arith)
      short_opens

short_seals : encrypt identity_aead (some zero_block) short_text ≡ ok short_sealed
unfolding encrypt gost_cmac gost_ctr gost_ctr_increment mac_loop last_block fill
short_seals = refl

another_slice : short_forged ≢ short_sealed
another_slice e = ground arith

decrypt-encrypt_forged_example : decrypt identity_aead short_forged ≡ err auth_failed
decrypt-encrypt_forged_example =
    decrypt-encrypt_forged identity_aead identity_aead-IsAead zero_block short_text short_sealed
      short_forged (refl, omega arith) (omega arith) short_seals refl refl another_slice

-- In place of a digest, 32 zeros.
new_kuznyechik_aead-gost_block_example :
    (k : KuznyechikAead) × (new_kuznyechik_aead (λ bytes. replicate 32 0) sample_key ≡ ok k)
    × IsAead k
    × (uint64 (k.enc_block.encrypt sample_plain) ≡ gost_block (replicate 32 0) sample_plain)
    × (uint64 (k.mac_block.encrypt sample_plain) ≡ gost_block (replicate 32 0) sample_plain)
new_kuznyechik_aead-gost_block_example =
    new_kuznyechik_aead-gost_block (λ bytes. replicate 32 0) sample_key (λ bytes. refl) refl
      sample_plain (λ bytes. omega arith) sample_plain-IsBlock

-- A byte of the third block.
gost_ctr-IsMasked_example :
    IsMasked sample_block sample_plain sample_text 33
      (get_or (gost_ctr sample_block sample_text sample_text sample_plain) 33 0)
gost_ctr-IsMasked_example =
    gost_ctr-IsMasked sample_block sample_law sample_plain sample_text sample_text 33
      sample_plain-IsBlock refl (omega arith)
