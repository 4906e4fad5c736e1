-- ===== src/Kms/Provider.antt =====
-- internal/kms/kuznyechik_provider.go: `KuznyechikProvider`, which encrypts under the key of its
-- manager. The state is the manager's; logging and the key's name are left out.
pub mod Examples
pub mod Laws
use kubebao.Common.{ℕ, List, Option, none, some}
use kubebao.Common.Result.{Result, ok, err, ◌>>=◌}
use kubebao.Crypto.Aead as Aead
use kubebao.Crypto.Aead.{KuznyechikAead, CryptoError, new_kuznyechik_aead}
use kubebao.Kms.KeyManager.{
  Codec, Client, World, KeyManager, KmsError, VersionedKey, get_or_create_key, get_key_info,
}

-- An error of one of the calls, wrapped.
pub data ProviderError : Type 0 where
  get_key : KmsError → ProviderError
  create_aead encrypt_failed decrypt_failed : CryptoError → ProviderError

abbrev wrap : {E F A : Type 0} → (E → F) → Result E A → Result F A
wrap f (ok a) = ok a
wrap f (err e) = err (f e)

module _ (sha256 : List ℕ → List ℕ) where
  -- What `Encrypt` and `Decrypt` do with the answer of `GetOrCreateKey`.
  encrypt_with :
      Result KmsError VersionedKey → Option (List ℕ) → List ℕ → Result ProviderError (List ℕ)
  encrypt_with r iv plaintext = do
    key ← wrap get_key r
    aead ← wrap create_aead (new_kuznyechik_aead sha256 key.0)
    wrap encrypt_failed (Aead.encrypt aead iv plaintext)

  decrypt_with : Result KmsError VersionedKey → List ℕ → Result ProviderError (List ℕ)
  decrypt_with r ciphertext = do
    key ← wrap get_key r
    aead ← wrap create_aead (new_kuznyechik_aead sha256 key.0)
    wrap decrypt_failed (Aead.decrypt aead ciphertext)

  module _ (codec : Codec) (client : Client) where
    unfoldable pub encrypt :
        KeyManager
        → World
        → Option (List ℕ)
        → List ℕ
        → Result ProviderError (List ℕ) × KeyManager × World
    unfolding encrypt_with
    encrypt km w iv plaintext =
        let (r, km', w') = get_or_create_key codec client km w in
        (encrypt_with r iv plaintext, km', w')

    unfoldable pub decrypt :
        KeyManager → World → List ℕ → Result ProviderError (List ℕ) × KeyManager × World
    unfolding decrypt_with
    decrypt km w ciphertext =
        let (r, km', w') = get_or_create_key codec client km w in
        (decrypt_with r ciphertext, km', w')
