-- ===== src/Crypto/Aead/Laws.antt =====
-- What `Encrypt` and `Decrypt` of `KuznyechikAEAD` guarantee.
use kubebao.Common.{
  ℕ, ◌+◌, ◌≤◌, List, [], ◌∷◌, ◌++◌, ◌≡◌, ◌≢◌, inl, inr, refl, sym, ap, ap₂, ◌∙◌, arith, Bool, true,
  some, length, drop, get_or, replicate, length-take, length-drop, length-replicate, Bool-cases,
}
use kubebao.Common.Result.{ok, err}
use kubebao.Kuznyechik.Bytes.{IsBytes, IsBlock, IsBytes-take, IsBytes-drop}
use kubebao.Crypto.Block.{IsBlockCipher}
use kubebao.Crypto.Ctr.{gost_ctr}
use kubebao.Crypto.Ctr.Laws.{length-gost_ctr, gost_ctr-IsBytes, gost_ctr-gost_ctr}
use kubebao.Crypto.Cmac.{gost_cmac}
use kubebao.Crypto.Cmac.Tag.{gost_cmac-IsBlock, zeros-IsBytes}
use kubebao.Crypto.Aead.{
  KuznyechikAead, auth_failed, encrypt, decrypt, constant_time_equal, iv_of, body_of, tag_of,
  overhead,
}
use kubebao.Crypto.Aead.Format.{
  equal_of_test, constant_time_equal_iff, message, message-length, iv_of-message, body_of-message,
  tag_of-message, parts_of,
}

-- The two ciphers keep blocks.
pub record IsAead (k : KuznyechikAead) : Type 0 where
  pub enc : IsBlockCipher k.enc_block
  pub mac : IsBlockCipher k.mac_block

-- The tag that belongs to the IV and the text of a slice.
abbrev pub expected_tag : KuznyechikAead → List ℕ → List ℕ
expected_tag k bytes = gost_cmac k.mac_block (iv_of bytes ∷ body_of bytes ∷ [])

-- The text of a slice, deciphered.
abbrev pub deciphered : KuznyechikAead → List ℕ → List ℕ
deciphered k bytes =
    gost_ctr k.enc_block (replicate (length (body_of bytes)) 0) (body_of bytes) (iv_of bytes)

module _ (k : KuznyechikAead) (bytes : List ℕ) where
  abbrev tag_test : Bool
  tag_test = constant_time_equal (tag_of bytes) (expected_tag k bytes)

  -- A slice of the right form whose tag is not the one of its IV and text is refused with
  -- `ErrAuthFailed`, and nothing of it is deciphered.
  pub decrypt_forged :
      overhead ≤ length bytes
      → get_or bytes 0 0 ≡ 1
      → tag_of bytes ≢ expected_tag k bytes
      → decrypt k bytes ≡ err auth_failed
  unfolding decrypt
  decrypt_forged long version forged = elim (Bool-cases tag_test) [
    | inl same ↦ absurd (forged (equal_of_test (tag_of bytes) (expected_tag k bytes) same))
    | inr other ↦ ground arith
  ]

  pub decrypt_genuine :
      overhead ≤ length bytes
      → get_or bytes 0 0 ≡ 1
      → tag_of bytes ≡ expected_tag k bytes
      → decrypt k bytes ≡ ok (deciphered k bytes)
  unfolding decrypt
  decrypt_genuine long version genuine =
      let passed : tag_test ≡ true =
        (constant_time_equal_iff (tag_of bytes) (expected_tag k bytes)).1 genuine in
      ground arith

  -- What success says about the slice.
  decrypt_ok_inv :
      (p : List ℕ)
      → decrypt k bytes ≡ ok p
      → (overhead ≤ length bytes)
        × (get_or bytes 0 0 ≡ 1)
        × (tag_test ≡ true)
        × (p ≡ deciphered k bytes)
  unfolding decrypt
  decrypt_ok_inv p h = ground arith

module _ (k : KuznyechikAead) (sound : IsAead k) where
  -- If both ciphers keep blocks: under any IV of sixteen bytes and for every text, `Encrypt` returns
  -- the version, the IV, a ciphertext as long as the text and a tag of sixteen bytes: 33 bytes more
  -- than the text. `Decrypt` of it returns the text.
  pub decrypt-encrypt-some :
      (iv plaintext : List ℕ)
      → IsBlock iv
      → IsBytes plaintext
      → (out : List ℕ) × (encrypt k (some iv) plaintext ≡ ok out)
        × (length out ≡ overhead + length plaintext)
        × (decrypt k out ≡ ok plaintext)
  unfolding encrypt
  decrypt-encrypt-some iv plaintext iv_ok text_ok = (
    message iv ct tag iv_ok.0 tag_size,
    refl,
    message-length iv ct tag iv_ok.0 tag_size ∙ ap (λ n. overhead + n) ct_size,
    decrypt_genuine k (message iv ct tag iv_ok.0 tag_size)
          (omega (arith, message-length iv ct tag iv_ok.0 tag_size)) refl
          (tag_of-message iv ct tag iv_ok.0 tag_size
            ∙ sym (
                ap₂ (λ a b. gost_cmac k.mac_block (a ∷ b ∷ []))
                  (iv_of-message iv ct tag iv_ok.0 tag_size)
                  (body_of-message iv ct tag iv_ok.0 tag_size)))
        ∙ ap₂ (λ a b. ok (gost_ctr k.enc_block (replicate (length b) 0) b a))
            (iv_of-message iv ct tag iv_ok.0 tag_size) (body_of-message iv ct tag iv_ok.0 tag_size)
        ∙ ap ok (
            gost_ctr-gost_ctr k.enc_block sound.enc iv iv_ok zeros (replicate (length ct) 0)
              plaintext (length-replicate (length plaintext) 0)
              (length-replicate (length ct) 0 ∙ ct_size)),
  )
    where
      zeros : List ℕ
      zeros = replicate (length plaintext) 0

      ct : List ℕ
      ct = gost_ctr k.enc_block zeros plaintext iv

      ct_size : length ct ≡ length plaintext
      ct_size =
          length-gost_ctr k.enc_block sound.enc iv iv_ok zeros plaintext
            (length-replicate (length plaintext) 0)
          ∙ length-replicate (length plaintext) 0

      ct_ok : IsBytes ct
      ct_ok =
          gost_ctr-IsBytes k.enc_block sound.enc iv iv_ok zeros plaintext
            (zeros-IsBytes (length plaintext)) text_ok

      tag : List ℕ
      tag = gost_cmac k.mac_block (iv ∷ ct ∷ [])

      tag_size : length tag ≡ 16
      tag_size = (gost_cmac-IsBlock k.mac_block sound.mac iv ct iv_ok.1 ct_ok).0

  -- If both ciphers keep blocks, whatever bytes `Decrypt` accepts are what `Encrypt` makes of the
  -- text that it returns, under the IV in the message.
  pub encrypt-decrypt :
      (bytes p : List ℕ)
      → IsBytes bytes
      → decrypt k bytes ≡ ok p
      → encrypt k (some (iv_of bytes)) p ≡ ok bytes
  unfolding encrypt
  encrypt-decrypt bytes p all h =
      ap (λ t. ok (1 ∷ iv_of bytes ++ t ++ gost_cmac k.mac_block (iv_of bytes ∷ t ∷ []))) again
      ∙ ap (λ t. ok (1 ∷ iv_of bytes ++ body_of bytes ++ t))
          (sym (equal_of_test (tag_of bytes) (expected_tag k bytes) inv.2))
      ∙ ap (λ v. ok (v ∷ iv_of bytes ++ body_of bytes ++ tag_of bytes)) (sym inv.1)
      ∙ ap ok (sym (parts_of bytes inv.0))
    where
      inv :
          (overhead ≤ length bytes)
          × (get_or bytes 0 0 ≡ 1)
          × (tag_test k bytes ≡ true)
          × (p ≡ deciphered k bytes)
      inv = decrypt_ok_inv k bytes p h

      iv_ok : IsBlock (iv_of bytes)
      iv_ok = (
        omega (arith, inv.0, length-take {0} 16 (drop 1 bytes), length-drop {0} 1 bytes),
        IsBytes-take 16 (drop 1 bytes) (IsBytes-drop 1 bytes all),
      )

      zeros : List ℕ
      zeros = replicate (length (body_of bytes)) 0

      zeros_size : length zeros ≡ length (body_of bytes)
      zeros_size = length-replicate (length (body_of bytes)) 0

      text_size : length p ≡ length (body_of bytes)
      text_size =
          ap length inv.3
          ∙ length-gost_ctr k.enc_block sound.enc (iv_of bytes) iv_ok zeros (body_of bytes)
              zeros_size
          ∙ zeros_size

      again : gost_ctr k.enc_block (replicate (length p) 0) p (iv_of bytes) ≡ body_of bytes
      again =
          ap₂ (λ n t. gost_ctr k.enc_block (replicate n 0) t (iv_of bytes)) text_size inv.3
          ∙ gost_ctr-gost_ctr k.enc_block sound.enc (iv_of bytes) iv_ok zeros zeros (body_of bytes)
              zeros_size zeros_size
