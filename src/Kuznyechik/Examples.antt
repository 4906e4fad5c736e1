-- ===== src/Kuznyechik/Examples.antt =====
-- The test vectors of internal/kuznyechik/cipher_test.go (GOST R 34.12-2015, RFC 7801), and inputs
-- at which the theorems are applied.
use kubebao.Common.{arith, ℕ, map, ◌≡◌, refl, Option, none, some, List, [], ◌∷◌}
use kubebao.Common.Result.{ok, err}
use kubebao.Kuznyechik.Cipher.{
  new_cipher, expand_key, encrypt, decrypt, ls, ils, ilss, f, isi, fk, uint64, put_bytes, mix,
  xor_words, s_index,
}
use kubebao.Kuznyechik.Gost.{gost_l, gost_l_inv, gost_s, gost_round_keys}
use kubebao.Kuznyechik.Mix.{join, split}
use kubebao.Kuznyechik.Bytes.{IsBytes, IsBlock}
use kubebao.Kuznyechik.Laws.{
  IsMadeFrom, Encrypts, DecryptsBack, key_cipher, key_pair, new_cipher_lem, encrypt-gost_encrypt,
  decrypt-encrypt, key_pair-IsKeyPair,
}
use kubebao.Kuznyechik.Schedule.{expand_key_lem, join_pair}
use kubebao.Kuznyechik.Rows.Forward.{ls_lem}
use kubebao.Kuznyechik.Rows.Inverse.{ilss_lem}
use kubebao.Kuznyechik.Tables.{t_table, it_table, s_table, is_table, c_table}

abbrev pub sample_key : List ℕ
sample_key =
    0x88 ∷ 0x99 ∷ 0xaa ∷ 0xbb ∷ 0xcc ∷ 0xdd ∷ 0xee ∷ 0xff ∷ 0x00 ∷ 0x11 ∷ 0x22 ∷ 0x33 ∷ 0x44 ∷ 0x55
    ∷ 0x66 ∷ 0x77 ∷ 0xfe ∷ 0xdc ∷ 0xba ∷ 0x98 ∷ 0x76 ∷ 0x54 ∷ 0x32 ∷ 0x10 ∷ 0x01 ∷ 0x23 ∷ 0x45
    ∷ 0x67 ∷ 0x89 ∷ 0xab ∷ 0xcd ∷ 0xef ∷ []

abbrev pub sample_plain : List ℕ
sample_plain =
    0x11 ∷ 0x22 ∷ 0x33 ∷ 0x44 ∷ 0x55 ∷ 0x66 ∷ 0x77 ∷ 0x00 ∷ 0xff ∷ 0xee ∷ 0xdd ∷ 0xcc ∷ 0xbb ∷ 0xaa
    ∷ 0x99 ∷ 0x88 ∷ []

abbrev sample_cipher : List ℕ
sample_cipher =
    0x7f ∷ 0x67 ∷ 0x9d ∷ 0x90 ∷ 0xbe ∷ 0xbc ∷ 0x24 ∷ 0x30 ∷ 0x5a ∷ 0x46 ∷ 0x8d ∷ 0x42 ∷ 0xb9 ∷ 0xd4
    ∷ 0xed ∷ 0xcd ∷ []

encrypt_sample : Option (List ℕ)
encrypt_sample = elim (new_cipher sample_key) [
  | ok k ↦ encrypt k sample_plain sample_plain
  | err e ↦ none
]

encrypt_sample_lem : encrypt_sample ≡ some sample_cipher
unfolding encrypt_sample new_cipher encrypt ls ilss f fk uint64 put_bytes mix xor_words s_index
    t_table it_table s_table c_table
encrypt_sample_lem = refl

decrypt_sample : Option (List ℕ)
decrypt_sample = elim (new_cipher sample_key) [
  | ok k ↦ decrypt k sample_cipher sample_cipher
  | err e ↦ none
]

decrypt_sample_lem : decrypt_sample ≡ some sample_plain
unfolding decrypt_sample new_cipher decrypt ls ils ilss isi f fk uint64 put_bytes mix xor_words
    s_index t_table it_table s_table is_table c_table
decrypt_sample_lem = refl

pub sample_key-IsBytes : IsBytes sample_key
sample_key-IsBytes = omega arith

pub sample_plain-IsBlock : IsBlock sample_plain
sample_plain-IsBlock = (refl, omega arith)

sample_key-IsMadeFrom : IsMadeFrom sample_key (key_cipher sample_key)
sample_key-IsMadeFrom = (sample_key-IsBytes, (new_cipher_lem sample_key).0 refl)

encrypt-gost_encrypt_example : Encrypts sample_key (key_cipher sample_key) sample_plain sample_plain
encrypt-gost_encrypt_example =
    encrypt-gost_encrypt sample_key (key_cipher sample_key) sample_plain sample_plain
      sample_key-IsMadeFrom sample_plain-IsBlock refl

decrypt-encrypt_example :
    DecryptsBack (key_cipher sample_key) sample_plain sample_plain sample_plain
decrypt-encrypt_example =
    decrypt-encrypt sample_key (key_cipher sample_key) sample_plain sample_plain sample_plain
      sample_key-IsMadeFrom sample_plain-IsBlock refl refl

expand_key_lem_example :
    map join (expand_key (key_pair sample_key)) ≡ gost_round_keys (join_pair (key_pair sample_key))
expand_key_lem_example =
    expand_key_lem (key_pair sample_key) (key_pair-IsKeyPair sample_key sample_key-IsBytes)

ls_lem_example : ls (1, 2) ≡ split (gost_l (gost_s (join (1, 2))))
ls_lem_example = ls_lem (1, 2) (omega arith)

ilss_lem_example : ilss (1, 2) ≡ split (gost_l_inv (join (1, 2)))
ilss_lem_example = ilss_lem (1, 2) (omega arith)
