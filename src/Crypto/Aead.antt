-- ===== src/Crypto/Aead.antt =====
-- `KuznyechikAEAD`: encrypt, then authenticate.
pub mod Format
pub mod Laws
pub mod Forgery
pub mod Derive
use kubebao.Common.{
  ℕ, ◌+◌, ◌-◌, List, [], ◌∷◌, ◌++◌, Bool, true, false, not, ◌&&◌, Option, none, some, ltb, ◌==◌,
  if◌then◌else◌, length, take, drop, get_or, replicate,
}
use kubebao.Common.Result.{Result, ok, err, ◌>>=◌}
use kubebao.Kuznyechik.Cipher.{KuznyechikCipher, KeyError, new_cipher}
use kubebao.Crypto.Block.{Block, kuznyechik_block}
use kubebao.Crypto.Ctr.{gost_ctr}
use kubebao.Crypto.Cmac.{gost_cmac}

abbrev pub kuznyechik_key_size : ℕ
kuznyechik_key_size = 32

abbrev pub version_size : ℕ
version_size = 1

abbrev pub iv_size : ℕ
iv_size = 16

abbrev pub cmac_tag_size : ℕ
cmac_tag_size = 16

abbrev pub overhead : ℕ
overhead = version_size + iv_size + cmac_tag_size

abbrev pub current_version : ℕ
current_version = 1

-- The errors of the package; `enc_cipher_failed` and `mac_cipher_failed` wrap an error of
-- `kuznyechik.NewCipher`, and `iv_failed` one of the random source.
pub data CryptoError : Type 0 where
  invalid_key_size invalid_ciphertext auth_failed iv_failed : CryptoError
  unsupported_version : ℕ → CryptoError
  enc_cipher_failed mac_cipher_failed : KeyError → CryptoError

pub record KuznyechikAead : Type 0 where
  pub enc_block : Block
  pub mac_block : Block

-- "kubebao-kuznyechik-enc" and "kubebao-kuznyechik-mac"
abbrev pub domain_prefix : List ℕ
domain_prefix =
    b'k' ∷ b'u' ∷ b'b' ∷ b'e' ∷ b'b' ∷ b'a' ∷ b'o' ∷ b'-' ∷ b'k' ∷ b'u' ∷ b'z' ∷ b'n' ∷ b'y' ∷ b'e'
    ∷ b'c' ∷ b'h' ∷ b'i' ∷ b'k' ∷ b'-' ∷ []

abbrev pub enc_domain : List ℕ
enc_domain = domain_prefix ++ (b'e' ∷ b'n' ∷ b'c' ∷ [])

abbrev pub mac_domain : List ℕ
mac_domain = domain_prefix ++ (b'm' ∷ b'a' ∷ b'c' ∷ [])

-- SHA-256 (crypto/sha256) is a parameter.
module _ (sha256 : List ℕ → List ℕ) where
  unfoldable pub derive_subkey : List ℕ → List ℕ → List ℕ
  derive_subkey master_key domain = sha256 (domain ++ 0 ∷ master_key)

  -- The cipher of a key, or the error of `NewCipher`, wrapped.
  abbrev pub wrap_cipher :
      (KeyError → CryptoError) → Result KeyError KuznyechikCipher → Result CryptoError Block
  wrap_cipher wrap (ok k) = ok (kuznyechik_block k)
  wrap_cipher wrap (err e) = err (wrap e)

  unfoldable pub new_kuznyechik_aead : List ℕ → Result CryptoError KuznyechikAead
  unfolding derive_subkey
  new_kuznyechik_aead master_key =
      if length master_key == kuznyechik_key_size
      then (do
        enc_block ← wrap_cipher enc_cipher_failed (new_cipher (derive_subkey master_key enc_domain))
        mac_block ← wrap_cipher mac_cipher_failed (new_cipher (derive_subkey master_key mac_domain))
        ok (record { enc_block = enc_block; mac_block = mac_block }))
      else err invalid_key_size

-- `Encrypt`; the first argument is what `io.ReadFull(rand.Reader, iv)` delivers, `none` its error.
unfoldable pub encrypt : KuznyechikAead → Option (List ℕ) → List ℕ → Result CryptoError (List ℕ)
encrypt k none plaintext = err iv_failed
encrypt k (some iv) plaintext =
    let ct = gost_ctr k.enc_block (replicate (length plaintext) 0) plaintext iv in
    let tag = gost_cmac k.mac_block (iv ∷ ct ∷ []) in ok (current_version ∷ iv ++ ct ++ tag)

-- `subtle.ConstantTimeCompare(a, b) == 1` of the standard library, whose answer does not depend on
-- where the slices differ
unfoldable pub constant_time_equal : List ℕ → List ℕ → Bool
constant_time_equal [] [] = true
constant_time_equal [] (y ∷ b) = false
constant_time_equal (x ∷ a) [] = false
constant_time_equal (x ∷ a) (y ∷ b) = x == y && constant_time_equal a b

-- `data[1:17]`, `data[17:len(data)-16]` and `data[len(data)-16:]`
abbrev pub iv_of : List ℕ → List ℕ
iv_of bytes = take iv_size (drop version_size bytes)

abbrev pub body_of : List ℕ → List ℕ
body_of bytes =
    take (length bytes - cmac_tag_size - (version_size + iv_size))
      (drop (version_size + iv_size) bytes)

abbrev pub tag_of : List ℕ → List ℕ
tag_of bytes = drop (length bytes - cmac_tag_size) bytes

unfoldable pub decrypt : KuznyechikAead → List ℕ → Result CryptoError (List ℕ)
unfolding constant_time_equal
decrypt k bytes =
    if ltb (length bytes) overhead
    then err invalid_ciphertext
    else (if not (get_or bytes 0 0 == current_version)
        then err (unsupported_version (get_or bytes 0 0))
        else (if not (
              constant_time_equal (tag_of bytes)
                (gost_cmac k.mac_block (iv_of bytes ∷ body_of bytes ∷ [])))
            then err auth_failed
            else ok (
                gost_ctr k.enc_block (replicate (length (body_of bytes)) 0) (body_of bytes)
                  (iv_of bytes))))
