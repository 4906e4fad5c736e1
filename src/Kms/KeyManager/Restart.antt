-- ===== src/Kms/KeyManager/Restart.antt =====
-- What the managers of later processes find in the store.
use kubebao.Common.{
  subst, refl, ap, Option, ℕ, List, Bool, true, false, none, some, ◌≡◌, arith, ap₂, ◌∙◌, length,
}
use kubebao.Common.Result.{ok}
use kubebao.Crypto.Aead.{kuznyechik_key_size}
use kubebao.Kms.KeyManager.{
  Codec, IsCodec, World, KeyManager, KeyData, VersionedKey, new_entry, new_key_manager, Client,
  Json, string, structured, decode_value, Entry, IsNumberClient, decode_entry, number, text,
  get_or_create_key, from_cache, after_read, create_key, load_key, finish_write, kv_read, kv_write,
  parse_key_data, decode_field, sized_key, version_of, get_key_info, info_of,
}
use kubebao.Kms.KeyManager.Laws.{IsSized}

module _ (codec : Codec) (client : Client) where
  -- The entry that a manager writes, as another reads it.
  parse_key_data-new_entry :
      IsCodec codec
      → IsNumberClient client
      → (key : List ℕ) → length key ≡ kuznyechik_key_size
      → parse_key_data codec
          (record { key = some (text (codec.encode key)); version = some (client.number_value 1) })
        ≡ ok (key, 1)
  unfolding parse_key_data decode_field sized_key version_of
  parse_key_data-new_entry good numbers key size =
      ap₂ (λ t v. sized_key codec t (version_of (some v))) (good.round_trip key)
        (numbers.keeps_number 1)
      ∙ ground arith

  fresh_key :
      (fresh : Bool) (key : List ℕ) (w : World)
      → IsCodec codec
      → IsNumberClient client
      → length key ≡ kuznyechik_key_size
      → w.readable ≡ true
      → w.stored ≡ some (new_entry codec key)
      → (get_or_create_key codec client (new_key_manager fresh) w).0 ≡ ok (key, 1)
  unfolding get_or_create_key from_cache after_read load_key kv_read
  fresh_key fresh key w good numbers size reads holds =
      let parsed = parse_key_data-new_entry good numbers key size in ground (arith, parsed)

module _ (codec : Codec) (client : Client) (km : KeyManager) (w : World) where
  -- What a call that creates a key leaves behind.
  created :
      (kv : VersionedKey) (km' : KeyManager) (w' : World)
      → kv_read client w ≡ none
      → km.cached_key ≡ none
      → get_or_create_key codec client km w ≡ (ok kv, km', w')
      → (w.random ≡ some kv.0)
        × (kv.1 ≡ 1)
        × (w'.readable ≡ w.readable)
        × (w'.stored ≡ some (new_entry codec kv.0))
  unfolding get_or_create_key from_cache after_read create_key finish_write kv_write
  created kv km' w' empty cold h = ground arith

  -- If the store answers and is empty, a key that `GetOrCreateKey` returns has version 1, and any
  -- manager of a later process reads this key and this version back, provided that nothing is
  -- cached at the start, base64 decodes what it encodes, the library keeps numbers as json.Number,
  -- and the random source fills the slice.
  pub get_or_create_key-restart :
      (fresh : Bool) (kv : VersionedKey) (km' : KeyManager) (w' : World)
      → IsCodec codec
      → IsNumberClient client
      → IsSized w.random
      → w.stored ≡ none
      → w.readable ≡ true
      → km.cached_key ≡ none
      → get_or_create_key codec client km w ≡ (ok kv, km', w')
      → (kv.1 ≡ 1) × ((get_or_create_key codec client (new_key_manager fresh) w').0 ≡ ok (kv.0, 1))
  get_or_create_key-restart fresh kv km' w' good numbers full empty answers cold h =
      let unread : kv_read client w ≡ none = unfold kv_read in ground arith in
      let made = created kv km' w' unread cold h in
      (
        made.1,
        fresh_key codec client fresh kv.0 w' good numbers (subst IsSized made.0 full)
            (made.2 ∙ answers) made.3,
      )

  -- If the store does not answer the read, a key that `GetOrCreateKey` returns with an empty cache
  -- comes from the random source, whatever key the store held: it has taken that key's place, so
  -- that any manager of a later process gets the new key once the store answers. Base64 decodes
  -- what it encodes, the library keeps numbers as json.Number, and the random source fills the
  -- slice.
  pub get_or_create_key_lost :
      (fresh : Bool) (kv : VersionedKey) (km' : KeyManager) (w' : World)
      → IsCodec codec
      → IsNumberClient client
      → IsSized w.random
      → w.readable ≡ false
      → km.cached_key ≡ none
      → get_or_create_key codec client km w ≡ (ok kv, km', w')
      → (w.random ≡ some kv.0)
        × ((get_or_create_key codec client
              (new_key_manager fresh)
              (record w' { readable = true })).0
            ≡ ok (kv.0, 1))
  get_or_create_key_lost fresh kv km' w' good numbers full deaf cold h =
      let unread : kv_read client w ≡ none = unfold kv_read in ground arith in
      let made = created kv km' w' unread cold h in
      (
        made.0,
        fresh_key codec client fresh kv.0 (record w' { readable = true }) good numbers
            (subst IsSized made.0 full) refl made.3,
      )

module _ (codec : Codec) (client : Client) (numbers : IsNumberClient client) where
  version_of_number : (o : Option Json) → version_of (decode_value client o) ≡ 1
  unfolding version_of
  version_of_number none = refl
  version_of_number (some (string t)) = refl
  version_of_number (some (number n)) = ap (λ v. version_of (some v)) (numbers.keeps_number n)
  version_of_number (some structured) = refl

  decoded_version :
      (o : Option Entry) (fields : KeyData)
      → decode_entry client o ≡ some fields
      → version_of fields.version ≡ 1
  decoded_version none fields h = ground arith
  decoded_version (some entry) fields h =
      let one = version_of_number entry.version in ground (arith, one)

  read_version :
      (w : World) (fields : KeyData)
      → kv_read client w ≡ some fields
      → version_of fields.version ≡ 1
  unfolding kv_read
  read_version w fields h = decoded_version w.stored fields (ground arith)

  info_version :
      (o : Option KeyData) (v : ℕ)
      → ((fields : KeyData) → o ≡ some fields → version_of fields.version ≡ 1)
      → info_of codec o ≡ ok (some v)
      → v ≡ 1
  unfolding info_of parse_key_data decode_field sized_key
  info_version none v ones h = ground arith
  info_version (some fields) v ones h = let one = ones fields refl in ground (arith, one)

  -- If the library keeps numbers as json.Number, the version that `GetKeyInfo` reports is 1,
  -- whatever version the store holds.
  pub get_key_info_version : (w : World) (v : ℕ) → get_key_info codec client w ≡ ok (some v) → v ≡ 1
  unfolding get_key_info
  get_key_info_version w v h = info_version (kv_read client w) v (read_version w) h
