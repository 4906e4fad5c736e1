-- ===== src/Kms/Provider/Examples.antt =====
-- Inputs at which the theorems about the provider are applied, with 32 zeros for every digest.
use kubebao.Common.{ℕ, arith, ◌≡◌, refl, List, [], ◌∷◌, false, some, replicate}
use kubebao.Common.Result.{ok}
use kubebao.Kuznyechik.Examples.{sample_plain, sample_plain-IsBlock}
use kubebao.Kms.KeyManager.{new_key_manager}
use kubebao.Kms.KeyManager.Examples.{
  identity_codec, identity_codec-IsCodec, sample_client, sample_client-IsNumberClient,
  sample_random, sample_version, empty_world, filled_world, rotated_world, cold_manager,
  warm_manager, first_call,
}
use kubebao.Kms.KeyManager.Runs.{here, next, outside}
use kubebao.Kms.Provider.{encrypt, decrypt}
use kubebao.Kms.Provider.Laws.{provider_decrypt-encrypt, provider_decrypt_restarted}

abbrev zero_digest : List ℕ → List ℕ
zero_digest bytes = replicate 32 0

abbrev secret : List ℕ
secret = 5 ∷ 6 ∷ 7 ∷ []

-- The key in the store is rotated between the calls.
provider_decrypt-encrypt_example :
    (out : List ℕ) × (encrypt zero_digest identity_codec sample_client cold_manager empty_world
        (some sample_plain)
        secret
      ≡ (ok out, warm_manager, filled_world))
    × (decrypt zero_digest identity_codec sample_client warm_manager rotated_world out
        ≡ (ok secret, warm_manager, rotated_world))
provider_decrypt-encrypt_example =
    provider_decrypt-encrypt zero_digest (λ bytes. refl) identity_codec sample_client
      (record { manager = cold_manager; world = empty_world })
      (record { manager = warm_manager; world = rotated_world }) (sample_random, sample_version)
      warm_manager filled_world sample_plain secret first_call refl tt sample_plain-IsBlock
      (omega arith)
      (next here (outside (record { manager = warm_manager; world = filled_world }) rotated_world))

provider_decrypt_restarted_example :
    (out : List ℕ) × (encrypt zero_digest identity_codec sample_client cold_manager empty_world
        (some sample_plain)
        secret
      ≡ (ok out, warm_manager, filled_world))
    × ((decrypt zero_digest identity_codec sample_client (new_key_manager false) filled_world out).0
        ≡ ok secret)
provider_decrypt_restarted_example =
    provider_decrypt_restarted zero_digest (λ bytes. refl) identity_codec sample_client cold_manager
      empty_world false (sample_random, sample_version) warm_manager filled_world sample_plain
      secret identity_codec-IsCodec sample_client-IsNumberClient refl refl refl refl first_call
      sample_plain-IsBlock (omega arith)
