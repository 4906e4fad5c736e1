-- ===== src/Kms/KeyManager/Examples.antt =====
-- Inputs at which the theorems about the key manager are applied: stores that answer and that do
-- not, and a codec that leaves the bytes as they are.
use kubebao.Common.{ℕ, ◌≡◌, refl, List, true, false, none, some, replicate}
use kubebao.Common.Result.{ok}
use kubebao.Kms.KeyManager.{
  Codec, IsCodec, Client, IsNumberClient, json_number, string, number, Entry, World, done,
  KeyManager, new_entry, new_key_manager, get_or_create_key, from_cache, after_read, create_key,
  finish_write, kv_read, kv_write, get_key_info, info_of, parse_key_data, decode_field, sized_key,
  version_of, invalidate_cache,
}
use kubebao.Kms.KeyManager.Laws.{
  IsSized, get_or_create_key-IsSized, get_or_create_key-invalidate_cache,
}
use kubebao.Kms.KeyManager.Restart.{
  get_or_create_key-restart, get_or_create_key_lost, get_key_info_version,
}
use kubebao.Kms.KeyManager.Runs.{here, next, outside, info, get_or_create_key-stable}

abbrev pub identity_codec : Codec
identity_codec = record { encode = λ bytes. bytes; decode = λ bytes. some bytes }

pub identity_codec-IsCodec : IsCodec identity_codec
identity_codec-IsCodec = record { round_trip = λ bytes. refl }

abbrev pub sample_client : Client
sample_client = record { number_value = json_number }

pub sample_client-IsNumberClient : IsNumberClient sample_client
sample_client-IsNumberClient = record { keeps_number = λ n. refl }

abbrev pub sample_random : List ℕ
sample_random = replicate 32 7

abbrev pub empty_world : World
empty_world = record {
  stored = none;
  readable = true;
  write_fate = done;
  random = some sample_random;
}

abbrev pub filled_world : World
filled_world = record empty_world { stored = some (new_entry identity_codec sample_random) }

abbrev pub sample_version : ℕ
sample_version = 1

-- Another key, with version 2.
abbrev rotated_entry : Entry
rotated_entry = record { key = some (string (replicate 32 5)); version = some (number 2) }

abbrev pub rotated_world : World
rotated_world = record empty_world { stored = some rotated_entry }

abbrev pub cold_manager : KeyManager
cold_manager = new_key_manager true

abbrev pub warm_manager : KeyManager
warm_manager = record cold_manager { cached_key = some sample_random; key_version = 1 }

pub first_call :
    get_or_create_key identity_codec sample_client cold_manager empty_world
    ≡ (ok (sample_random, sample_version), warm_manager, filled_world)
unfolding get_or_create_key from_cache after_read create_key finish_write kv_read kv_write
first_call = refl

-- The key is rotated, and the process goes on with the old one.
get_or_create_key-stable_example :
    get_or_create_key identity_codec sample_client warm_manager rotated_world
    ≡ (ok (sample_random, sample_version), warm_manager, rotated_world)
get_or_create_key-stable_example =
    get_or_create_key-stable identity_codec sample_client
      (record { manager = cold_manager; world = empty_world })
      (record { manager = warm_manager; world = rotated_world }) (sample_random, sample_version)
      warm_manager filled_world first_call
      (next
        (next here
          (outside (record { manager = warm_manager; world = filled_world }) rotated_world))
        (info (record { manager = warm_manager; world = rotated_world })))

get_or_create_key-IsSized_example :
    IsSized (get_or_create_key identity_codec sample_client cold_manager empty_world).1.cached_key
get_or_create_key-IsSized_example =
    get_or_create_key-IsSized identity_codec sample_client cold_manager empty_world refl tt

get_or_create_key-invalidate_cache_example :
    ((get_or_create_key identity_codec sample_client
        (invalidate_cache warm_manager)
        rotated_world).0
      ≡ (get_or_create_key identity_codec sample_client (new_key_manager true) rotated_world).0)
    × ((get_or_create_key identity_codec sample_client
          (invalidate_cache warm_manager)
          rotated_world).1.cached_key
        ≡ (get_or_create_key identity_codec sample_client
            (new_key_manager true)
            rotated_world).1.cached_key)
    × ((get_or_create_key identity_codec sample_client
          (invalidate_cache warm_manager)
          rotated_world).2
        ≡ (get_or_create_key identity_codec sample_client (new_key_manager true) rotated_world).2)
get_or_create_key-invalidate_cache_example =
    get_or_create_key-invalidate_cache identity_codec sample_client warm_manager rotated_world

get_or_create_key-restart_example :
    (sample_version ≡ 1)
    × ((get_or_create_key identity_codec sample_client (new_key_manager false) filled_world).0
        ≡ ok (sample_random, sample_version))
get_or_create_key-restart_example =
    get_or_create_key-restart identity_codec sample_client cold_manager empty_world false
      (sample_random, sample_version) warm_manager filled_world identity_codec-IsCodec
      sample_client-IsNumberClient refl refl refl refl first_call

-- A store with another key in it, which answers only writes.
abbrev deaf_world : World
deaf_world = record rotated_world { readable = false }

abbrev overwritten_world : World
overwritten_world = record filled_world { readable = false }

deaf_call :
    get_or_create_key identity_codec sample_client cold_manager deaf_world
    ≡ (ok (sample_random, sample_version), warm_manager, overwritten_world)
unfolding get_or_create_key from_cache after_read create_key finish_write kv_read kv_write
deaf_call = refl

get_or_create_key_lost_example :
    (some sample_random ≡ some sample_random)
    × ((get_or_create_key identity_codec sample_client
          (new_key_manager true)
          (record overwritten_world { readable = true })).0
        ≡ ok (sample_random, sample_version))
get_or_create_key_lost_example =
    get_or_create_key_lost identity_codec sample_client cold_manager deaf_world true
      (sample_random, sample_version) warm_manager overwritten_world identity_codec-IsCodec
      sample_client-IsNumberClient refl refl refl deaf_call

rotated_info : get_key_info identity_codec sample_client rotated_world ≡ ok (some sample_version)
unfolding get_key_info info_of kv_read parse_key_data decode_field sized_key version_of
rotated_info = refl

get_key_info_version_example : sample_version ≡ 1
get_key_info_version_example =
    get_key_info_version identity_codec sample_client sample_client-IsNumberClient rotated_world
      sample_version rotated_info
