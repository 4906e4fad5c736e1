-- ===== src/Kuznyechik/Correct.antt =====
-- `Encrypt` and `Decrypt` on two words, beside the cipher of the standard.
use kubebao.Common.{ℕ, List, [], ◌∷◌, ◌≡◌, refl, ap, ap₂, ◌∙◌, map}
use kubebao.Bits.Xor.{◌⊕◌}
use kubebao.Kuznyechik.Cipher.{
  Words, KuznyechikCipher, xor_words, ls, ils, ilss, isi, decryption_keys, encrypt_words,
  decrypt_words,
}
use kubebao.Kuznyechik.Gost.{gost_rounds, gost_encrypt}
use kubebao.Kuznyechik.Mix.{IsWords, join, xor_words-IsWords, join-xor_words}
use kubebao.Kuznyechik.Halves.{sub_words, isi-first, isi-second}
use kubebao.Kuznyechik.Rounds.{join-ls, ls-IsWords, round_back, round_back_sub, xor_words_cancel}

abbrev pub AllWords : List Words → Type 0
AllWords [] = Unit {0}
AllWords (k ∷ keys) = IsWords k × AllWords keys

-- The rounds of `Encrypt` for a list of keys.
enc_rounds : List Words → Words → Words
enc_rounds [] x = x
enc_rounds (k ∷ keys) x = enc_rounds keys (xor_words (ls x) k)

-- The rounds of `Decrypt`, last key first, from the output of `ilss`.
dec_rounds : List Words → Words → Words
dec_rounds [] b = b
dec_rounds (k ∷ []) b = xor_words b (ilss k)
dec_rounds (k ∷ l ∷ keys) b = xor_words (ils (dec_rounds (l ∷ keys) b)) (ilss k)

enc_rounds-IsWords :
    (keys : List Words) (x : Words) → AllWords keys → IsWords x → IsWords (enc_rounds keys x)
unfolding enc_rounds
enc_rounds-IsWords [] x all ok = ok
enc_rounds-IsWords (k ∷ keys) x all ok =
    enc_rounds-IsWords keys (xor_words (ls x) k) all.1
      (xor_words-IsWords (ls x) k (ls-IsWords x ok) all.0)

dec_rounds-enc_rounds :
    (k : Words) (keys : List Words) (x : Words)
    → AllWords (k ∷ keys)
    → IsWords x
    → dec_rounds (k ∷ keys) (ilss (enc_rounds (k ∷ keys) x)) ≡ sub_words x
unfolding enc_rounds dec_rounds
dec_rounds-enc_rounds k [] x all ok = round_back x k ok all.0
dec_rounds-enc_rounds k (l ∷ keys) x all ok =
    ap (λ t. xor_words (ils t) (ilss k))
      (dec_rounds-enc_rounds l keys (xor_words (ls x) k) all.1
        (xor_words-IsWords (ls x) k (ls-IsWords x ok) all.0))
    ∙ round_back_sub x k ok all.0

join-enc_rounds :
    (keys : List Words) (x : Words)
    → AllWords keys
    → IsWords x
    → join (enc_rounds keys x) ≡ gost_rounds (map join keys) (join x)
unfolding enc_rounds gost_rounds
join-enc_rounds [] x all ok = refl
join-enc_rounds (k ∷ keys) x all ok =
    join-enc_rounds keys (xor_words (ls x) k) all.1
      (xor_words-IsWords (ls x) k (ls-IsWords x ok) all.0)
    ∙ ap (gost_rounds (map join keys))
        (join-xor_words (ls x) k (ls-IsWords x ok) all.0 ∙ ap (λ t. t ⊕ join k) (join-ls x ok))

-- The cipher with the given encryption keys.
abbrev pub cipher_of : List Words → KuznyechikCipher
cipher_of keys = record { erk = keys; drk = decryption_keys keys }

module _ (k0 k1 k2 k3 k4 k5 k6 k7 k8 k9 : Words) where
  abbrev ten_keys : List Words
  ten_keys = k0 ∷ k1 ∷ k2 ∷ k3 ∷ k4 ∷ k5 ∷ k6 ∷ k7 ∷ k8 ∷ k9 ∷ []

  abbrev later_keys : List Words
  later_keys = k1 ∷ k2 ∷ k3 ∷ k4 ∷ k5 ∷ k6 ∷ k7 ∷ k8 ∷ k9 ∷ []

  module _ (all : AllWords ten_keys) (x : Words) (ok : IsWords x) where
    whitened : IsWords (xor_words x k0)
    whitened = xor_words-IsWords x k0 ok all.0

    -- The result is again two words.
    pub encrypt_words-IsWords : IsWords (encrypt_words (cipher_of ten_keys) x)
    unfolding encrypt_words enc_rounds
    encrypt_words-IsWords = enc_rounds-IsWords later_keys (xor_words x k0) all.1 whitened

    -- On ten round keys the code computes the encryption of the standard.
    pub encrypt_words-gost_encrypt :
        join (encrypt_words (cipher_of ten_keys) x) ≡ gost_encrypt (map join ten_keys) (join x)
    unfolding encrypt_words enc_rounds gost_encrypt
    encrypt_words-gost_encrypt =
        join-enc_rounds later_keys (xor_words x k0) all.1 whitened
        ∙ ap (gost_rounds (map join later_keys)) (join-xor_words x k0 ok all.0)

    -- Decryption with the derived keys undoes encryption.
    pub decrypt_words-encrypt_words :
        decrypt_words (cipher_of ten_keys) (encrypt_words (cipher_of ten_keys) x) ≡ x
    unfolding encrypt_words decrypt_words decryption_keys enc_rounds dec_rounds
    decrypt_words-encrypt_words =
        ap (λ t. xor_words (isi t.0, isi t.1) k0)
          (dec_rounds-enc_rounds k1 (k2 ∷ k3 ∷ k4 ∷ k5 ∷ k6 ∷ k7 ∷ k8 ∷ k9 ∷ []) (xor_words x k0)
            all.1 whitened)
        ∙ ap (λ t. xor_words t k0)
            (ap₂ (λ (a b : ℕ). (a, b)) (isi-first (xor_words x k0) whitened)
              (isi-second (xor_words x k0) whitened))
        ∙ xor_words_cancel x k0
