-- ===== src/Kms/Provider/Laws.antt =====
-- `Encrypt` and `Decrypt` of the provider together: in one process, and over a restart.
use kubebao.Common.{ℕ, List, Bool, true, none, some, ◌≡◌, sym, ap, ◌∙◌, subst, arith, length}
use kubebao.Common.Result.{ok}
use kubebao.Kuznyechik.Bytes.{IsBytes, IsBlock}
use kubebao.Crypto.Aead.Laws.{decrypt-encrypt-some}
use kubebao.Crypto.Aead.Derive.{aead_of, aead_of-IsAead, new_kuznyechik_aead_made}
use kubebao.Kms.KeyManager.{
  Codec, IsCodec, Client, IsNumberClient, World, KeyManager, VersionedKey, get_or_create_key,
  new_key_manager,
}
use kubebao.Kms.KeyManager.Laws.{IsSized, get_or_create_key-Holds, get_or_create_key-IsSized}
use kubebao.Kms.KeyManager.Restart.{get_or_create_key-restart}
use kubebao.Kms.KeyManager.Runs.{Process, Reach, get_or_create_key-stable}
use kubebao.Kms.Provider.{encrypt, decrypt, encrypt_with, decrypt_with}

module _ (sha256 : List ℕ → List ℕ) (digest : (bytes : List ℕ) → length (sha256 bytes) ≡ 32) where
  -- Two answers with the same key of 32 bytes.
  decrypt_with-encrypt_with :
      (key iv plaintext : List ℕ) (version version' : ℕ)
      → length key ≡ 32
      → IsBlock iv
      → IsBytes plaintext
      → (out : List ℕ) × (encrypt_with sha256 (ok (key, version)) (some iv) plaintext ≡ ok out)
        × (decrypt_with sha256 (ok (key, version')) out ≡ ok plaintext)
  unfolding encrypt_with decrypt_with
  decrypt_with-encrypt_with key iv plaintext version version' size iv_ok text_ok =
      let made = new_kuznyechik_aead_made sha256 key digest size in
      let (out, sealed, sizes, opened) =
        decrypt-encrypt-some (aead_of sha256 key) (aead_of-IsAead sha256 key) iv plaintext iv_ok
          text_ok in
      (out, ground (arith, made, sealed), ground (arith, made, opened))

  module _ (codec : Codec) (client : Client) where
    -- A key that the manager returns has 32 bytes.
    returned_key_size :
        (p : Process) (kv : VersionedKey) (km : KeyManager) (w : World)
        → get_or_create_key codec client p.manager p.world ≡ (ok kv, km, w)
        → IsSized p.world.random
        → IsSized p.manager.cached_key
        → length kv.0 ≡ 32
    returned_key_size p kv km w h full sized =
        subst IsSized
          (ap (λ o. o.1.cached_key) h
            ∙ (get_or_create_key-Holds codec client p.manager p.world kv km w h).0)
          (get_or_create_key-IsSized codec client p.manager p.world full sized)

    -- If `GetOrCreateKey` returns a key, `Encrypt` of any text under any IV of sixteen bytes
    -- returns a ciphertext, and `Decrypt` of it returns the text in every state that the process
    -- then reaches by calls and by any changes of the store. SHA-256 returns 32 bytes, the random
    -- source fills the slice of the key, and a key that is cached at the start has 32 bytes.
    pub provider_decrypt-encrypt :
        (p q : Process) (kv : VersionedKey) (km : KeyManager) (w : World) (iv plaintext : List ℕ)
        → get_or_create_key codec client p.manager p.world ≡ (ok kv, km, w)
        → IsSized p.world.random
        → IsSized p.manager.cached_key
        → IsBlock iv
        → IsBytes plaintext
        → Reach codec client (record { manager = km; world = w }) q
        → (out : List ℕ) × (encrypt sha256 codec client p.manager p.world (some iv) plaintext
            ≡ (ok out, km, w))
          × (decrypt sha256 codec client q.manager q.world out ≡ (ok plaintext, q.manager, q.world))
    unfolding encrypt decrypt
    provider_decrypt-encrypt p q kv km w iv plaintext h full sized iv_ok text_ok run =
        let (out, sealed, opened) =
          decrypt_with-encrypt_with kv.0 iv plaintext kv.1 kv.1
            (returned_key_size p kv km w h full sized) iv_ok text_ok in
        let again = get_or_create_key-stable codec client p q kv km w h run in
        (
          out,
          ap (λ o. (encrypt_with sha256 o.0 (some iv) plaintext, o.1, o.2)) h
              ∙ ap (λ r. (r, km, w)) sealed,
          ap (λ o. (decrypt_with sha256 o.0 out, o.1, o.2)) again
              ∙ ap (λ r. (r, q.manager, q.world)) opened,
        )

    -- What `Encrypt` makes under a key that it created in an empty store, `Decrypt` of any later
    -- process on this store returns, if the store answers, base64 decodes what it encodes, the
    -- library keeps numbers as json.Number, SHA-256 returns 32 bytes and the random source fills
    -- the slice of the key.
    pub provider_decrypt_restarted :
        (km : KeyManager) (w : World) (fresh : Bool) (kv : VersionedKey) (km' : KeyManager)
        (w' : World) (iv plaintext : List ℕ)
        → IsCodec codec
        → IsNumberClient client
        → IsSized w.random
        → w.stored ≡ none
        → w.readable ≡ true
        → km.cached_key ≡ none
        → get_or_create_key codec client km w ≡ (ok kv, km', w')
        → IsBlock iv
        → IsBytes plaintext
        → (out : List ℕ) × (encrypt sha256 codec client km w (some iv) plaintext
            ≡ (ok out, km', w'))
          × ((decrypt sha256 codec client (new_key_manager fresh) w' out).0 ≡ ok plaintext)
    unfolding encrypt decrypt
    provider_decrypt_restarted km w fresh kv km' w' iv plaintext good numbers full empty answers
          cold h iv_ok text_ok =
        let (out, sealed, opened) =
          decrypt_with-encrypt_with kv.0 iv plaintext kv.1 1
            (returned_key_size (record { manager = km; world = w }) kv km' w' h full
              (subst IsSized (sym cold) tt))
            iv_ok text_ok in
        let again =
          (get_or_create_key-restart codec client km w fresh kv km' w' good numbers full empty
            answers cold h).1 in
        (
          out,
          ap (λ o. (encrypt_with sha256 o.0 (some iv) plaintext, o.1, o.2)) h
              ∙ ap (λ r. (r, km', w')) sealed,
          ap (λ r. decrypt_with sha256 r out) again ∙ opened,
        )
