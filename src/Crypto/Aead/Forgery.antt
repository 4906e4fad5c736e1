-- ===== src/Crypto/Aead/Forgery.antt =====
-- `Decrypt` of `KuznyechikAEAD` on messages with a changed tag.
use kubebao.Common.{
  ℕ, ◌-◌, List, [], ◌∷◌, ◌++◌, ◌≡◌, ◌≢◌, refl, sym, ap, ap₂, ◌∙◌, arith, some, length, take, drop,
  replicate, length-drop, length-append, take-append, take-append-drop, subst,
}
use kubebao.Common.Result.{ok, err}
use kubebao.Kuznyechik.Bytes.{IsBytes, IsBlock}
use kubebao.Crypto.Ctr.{gost_ctr}
use kubebao.Crypto.Ctr.Laws.{gost_ctr-IsBytes}
use kubebao.Crypto.Cmac.{gost_cmac}
use kubebao.Crypto.Cmac.Tag.{gost_cmac-IsBlock, zeros-IsBytes}
use kubebao.Crypto.Aead.{KuznyechikAead, auth_failed, encrypt, decrypt}
use kubebao.Crypto.Aead.Format.{
  message, message-length, iv_of-message, body_of-message, tag_of-message,
}
use kubebao.Crypto.Aead.Laws.{IsAead, decrypt_forged}

-- A message with another tag than the one of its IV and text.
forged_message :
    (k : KuznyechikAead) (iv ct tag : List ℕ) (iv_size : length iv ≡ 16)
    (tag_size : length tag ≡ 16)
    → tag ≢ gost_cmac k.mac_block (iv ∷ ct ∷ [])
    → decrypt k (message iv ct tag iv_size tag_size) ≡ err auth_failed
forged_message k iv ct tag iv_size tag_size other =
    let m = message iv ct tag iv_size tag_size in
    decrypt_forged k m (omega (arith, message-length iv ct tag iv_size tag_size)) refl (λ e. other (
      sym (tag_of-message iv ct tag iv_size tag_size)
      ∙ e
      ∙ ap₂ (λ a b. gost_cmac k.mac_block (a ∷ b ∷ [])) (iv_of-message iv ct tag iv_size tag_size)
          (body_of-message iv ct tag iv_size tag_size)))

-- A slice that begins like a message and is as long is the message with another tag.
begins_like :
    (head tag bytes : List ℕ)
    → length bytes ≡ length (head ++ tag)
    → take (length head) bytes ≡ take (length head) (head ++ tag)
    → (tag' : List ℕ) × (length tag' ≡ length tag) × (bytes ≡ head ++ tag')
begins_like head tag bytes size same = (
  drop (length head) bytes,
  omega (arith, size, length-append {0} head tag, length-drop {0} (length head) bytes),
  sym (take-append-drop (length head) bytes)
      ∙ ap (λ t. t ++ drop (length head) bytes) (same ∙ take-append head tag (length head) refl),
)

module _ (k : KuznyechikAead) (sound : IsAead k) where
  -- If both ciphers keep blocks, the message that `Encrypt` makes is the only one of its length
  -- with its version, IV and ciphertext that passes: any other slice that differs from it in the
  -- last sixteen bytes alone is refused with `ErrAuthFailed`.
  pub decrypt-encrypt_forged :
      (iv plaintext out bytes : List ℕ)
      → IsBlock iv
      → IsBytes plaintext
      → encrypt k (some iv) plaintext ≡ ok out
      → length bytes ≡ length out
      → take (length out - 16) bytes ≡ take (length out - 16) out
      → bytes ≢ out
      → decrypt k bytes ≡ err auth_failed
  unfolding encrypt
  decrypt-encrypt_forged iv plaintext out bytes iv_ok text_ok made size same other =
      subst (λ b. decrypt k b ≡ err auth_failed) (sym bytes_is)
        (forged_message k iv ct like.0 iv_ok.0 (like.1 ∙ tag_size)
          (λ e. other (bytes_is ∙ ap (λ t. 1 ∷ iv ++ ct ++ t) e ∙ sym out_is)))
    where
      ct : List ℕ
      ct = gost_ctr k.enc_block (replicate (length plaintext) 0) plaintext iv

      ct_ok : IsBytes ct
      ct_ok =
          gost_ctr-IsBytes k.enc_block sound.enc iv iv_ok (replicate (length plaintext) 0) plaintext
            (zeros-IsBytes (length plaintext)) text_ok

      tag : List ℕ
      tag = gost_cmac k.mac_block (iv ∷ ct ∷ [])

      tag_size : length tag ≡ 16
      tag_size = (gost_cmac-IsBlock k.mac_block sound.mac iv ct iv_ok.1 ct_ok).0

      head : List ℕ
      head = 1 ∷ iv ++ ct

      out_is : out ≡ 1 ∷ iv ++ ct ++ tag
      out_is = ground (arith, made)

      out_split : out ≡ head ++ tag
      out_split = out_is

      place : length out - 16 ≡ length head
      place = omega (arith, ap length out_split, tag_size, length-append {0} head tag)

      like : (tag' : List ℕ) × (length tag' ≡ length tag) × (bytes ≡ head ++ tag')
      like =
          begins_like head tag bytes (size ∙ ap length out_split)
            (ap (λ n. take n bytes) (sym place) ∙ same ∙ ap₂ (λ n o. take n o) place out_split)

      bytes_is : bytes ≡ 1 ∷ iv ++ ct ++ like.0
      bytes_is = like.2
