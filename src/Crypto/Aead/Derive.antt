-- ===== src/Crypto/Aead/Derive.antt =====
-- The ciphers that `NewKuznyechikAEAD` makes of a master key.
use kubebao.Common.{ℕ, List, ◌∷◌, ◌++◌, ◌≡◌, length, arith}
use kubebao.Common.Result.{ok}
use kubebao.Kuznyechik.Cipher.{uint64}
use kubebao.Kuznyechik.Gost.{gost_encrypt, gost_round_keys}
use kubebao.Kuznyechik.Schedule.{join_pair}
use kubebao.Kuznyechik.Bytes.{IsBytes, IsBlock}
use kubebao.Kuznyechik.Laws.{key_cipher, key_pair, new_cipher_lem, key_cipher-gost_block}
use kubebao.Crypto.Block.{kuznyechik_block, kuznyechik_block-IsBlockCipher}
use kubebao.Crypto.Aead.{KuznyechikAead, new_kuznyechik_aead, derive_subkey, enc_domain, mac_domain}
use kubebao.Crypto.Aead.Laws.{IsAead}

-- What the standard encrypts a block to, as a number, under a key of 32 bytes.
abbrev pub gost_block : List ℕ → List ℕ → ℕ
gost_block key src = gost_encrypt (gost_round_keys (join_pair (key_pair key))) (uint64 src)

module _ (sha256 : List ℕ → List ℕ) (master_key : List ℕ) where
  -- The two keys that are derived from the master key.
  abbrev pub enc_key : List ℕ
  enc_key = sha256 (enc_domain ++ 0 ∷ master_key)

  abbrev pub mac_key : List ℕ
  mac_key = sha256 (mac_domain ++ 0 ∷ master_key)

  abbrev pub aead_of : KuznyechikAead
  aead_of = record {
    enc_block = kuznyechik_block (key_cipher enc_key);
    mac_block = kuznyechik_block (key_cipher mac_key);
  }

  pub aead_of-IsAead : IsAead aead_of
  aead_of-IsAead = record {
    enc = kuznyechik_block-IsBlockCipher (key_cipher enc_key);
    mac = kuznyechik_block-IsBlockCipher (key_cipher mac_key);
  }

  module _ (digest : (bytes : List ℕ) → length (sha256 bytes) ≡ 32)
      (size : length master_key ≡ 32) where
    pub new_kuznyechik_aead_made : new_kuznyechik_aead sha256 master_key ≡ ok aead_of
    unfolding new_kuznyechik_aead derive_subkey
    new_kuznyechik_aead_made =
        let enc_made = (new_cipher_lem enc_key).0 (digest (enc_domain ++ 0 ∷ master_key)) in
        let mac_made = (new_cipher_lem mac_key).0 (digest (mac_domain ++ 0 ∷ master_key)) in
        ground (arith, enc_made, mac_made)

    -- If SHA-256 returns 32 bytes, a master key of 32 bytes gives an AEAD whose ciphers keep
    -- blocks. The first encrypts every block as the standard does under the digest of the text
    -- "kubebao-kuznyechik-enc", a zero byte and the master key, and the second under that with
    -- "kubebao-kuznyechik-mac".
    pub new_kuznyechik_aead-gost_block :
        (src : List ℕ)
        → ((bytes : List ℕ) → IsBytes (sha256 bytes))
        → IsBlock src
        → (k : KuznyechikAead) × (new_kuznyechik_aead sha256 master_key ≡ ok k)
          × IsAead k
          × (uint64 (k.enc_block.encrypt src)
              ≡ gost_block (sha256 (enc_domain ++ 0 ∷ master_key)) src)
          × (uint64 (k.mac_block.encrypt src)
              ≡ gost_block (sha256 (mac_domain ++ 0 ∷ master_key)) src)
    new_kuznyechik_aead-gost_block src bytes block = (
      aead_of,
      new_kuznyechik_aead_made,
      aead_of-IsAead,
      key_cipher-gost_block enc_key src (bytes (enc_domain ++ 0 ∷ master_key)) block,
      key_cipher-gost_block mac_key src (bytes (mac_domain ++ 0 ∷ master_key)) block,
    )
