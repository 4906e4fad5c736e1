-- ===== src/Kms/KeyManager/Laws.antt =====
-- What `GetOrCreateKey` of internal/kms/key_manager.go guarantees.
use kubebao.Common.{subst, Option, refl, ℕ, List, none, some, ◌≡◌, arith, length}
use kubebao.Common.Result.{ok}
use kubebao.Crypto.Aead.{kuznyechik_key_size}
use kubebao.Kms.KeyManager.{
  Codec, World, KeyManager, KeyData, VersionedKey, new_key_manager, get_or_create_key, from_cache,
  after_read, create_key, load_key, finish_write, Client, invalidate_cache, parse_key_data,
  decode_field, sized_key,
}

-- The cache holds a key and its version.
abbrev pub Holds : KeyManager → VersionedKey → Type 0
Holds km kv = (km.cached_key ≡ some kv.0) × (km.key_version ≡ kv.1)

module _ (codec : Codec) (client : Client) where
  pub get_or_create_key-hit :
      (km : KeyManager) (w : World) (kv : VersionedKey)
      → Holds km kv
      → get_or_create_key codec client km w ≡ (ok kv, km, w)
  unfolding get_or_create_key from_cache
  get_or_create_key-hit km w kv h = ground arith

  pub get_or_create_key-Holds :
      (km : KeyManager) (w : World) (kv : VersionedKey) (km' : KeyManager) (w' : World)
      → get_or_create_key codec client km w ≡ (ok kv, km', w')
      → Holds km' kv
  unfolding get_or_create_key from_cache after_read create_key load_key finish_write
  get_or_create_key-Holds km w kv km' w' h = ground arith

  -- What `parseKeyData` accepts has the size of a key.
  parse_key_data-size :
      (entry : KeyData) (kv : VersionedKey)
      → parse_key_data codec entry ≡ ok kv
      → length kv.0 ≡ kuznyechik_key_size
  unfolding parse_key_data decode_field sized_key
  parse_key_data-size entry kv h = ground arith

-- A key, if there is one, has the size of a key.
abbrev pub IsSized : Option (List ℕ) → Type 0
IsSized none = Unit {0}
IsSized (some key) = length key ≡ kuznyechik_key_size

IsSized-of_length :
    (o : Option (List ℕ))
    → ((key : List ℕ) → o ≡ some key → length key ≡ kuznyechik_key_size)
    → IsSized o
IsSized-of_length none h = tt
IsSized-of_length (some key) h = h key refl

length-of_IsSized :
    (o : Option (List ℕ)) (key : List ℕ)
    → IsSized o
    → o ≡ some key
    → length key ≡ kuznyechik_key_size
length-of_IsSized o key h e = subst IsSized e h

module _ (codec : Codec) (client : Client) (km : KeyManager) (w : World) where
  cached_key_size :
      (key : List ℕ)
      → IsSized w.random
      → IsSized km.cached_key
      → (get_or_create_key codec client km w).1.cached_key ≡ some key
      → length key ≡ kuznyechik_key_size
  unfolding get_or_create_key from_cache after_read create_key finish_write load_key
  cached_key_size key full sized h = ground (
    arith,
    parse_key_data-size codec,
    length-of_IsSized w.random key full,
    length-of_IsSized km.cached_key key sized,
  )

  -- Each call keeps the size of the cached key, if the random source fills a whole slice.
  pub get_or_create_key-IsSized :
      IsSized w.random
      → IsSized km.cached_key
      → IsSized (get_or_create_key codec client km w).1.cached_key
  get_or_create_key-IsSized full sized =
      IsSized-of_length (get_or_create_key codec client km w).1.cached_key
        (λ key. cached_key_size key full sized)

  -- A call after `InvalidateCache` returns what a new manager with the same flag would return, and
  -- leaves the same cached key and the same store behind, on every branch.
  pub get_or_create_key-invalidate_cache :
      ((get_or_create_key codec client (invalidate_cache km) w).0
        ≡ (get_or_create_key codec client (new_key_manager km.create_if_not_exists) w).0)
      × ((get_or_create_key codec client (invalidate_cache km) w).1.cached_key
          ≡ (get_or_create_key codec client
              (new_key_manager km.create_if_not_exists)
              w).1.cached_key)
      × ((get_or_create_key codec client (invalidate_cache km) w).2
          ≡ (get_or_create_key codec client (new_key_manager km.create_if_not_exists) w).2)
  unfolding get_or_create_key from_cache after_read create_key load_key finish_write
      invalidate_cache
  get_or_create_key-invalidate_cache = ground arith
