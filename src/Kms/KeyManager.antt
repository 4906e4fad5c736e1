-- ===== src/Kms/KeyManager.antt =====
-- internal/kms/key_manager.go: the master key in OpenBao's KV store, and its cache. What the remote
-- store and the random source answer is the `World`; base64 is a parameter.
pub mod Examples
pub mod Laws
pub mod Restart
pub mod Runs
use kubebao.Common.{
  ℕ, List, Bool, not, Option, none, true, false, some, ◌≡◌, ◌==◌, if◌then◌else◌, length,
}
use kubebao.Common.Result.{Result, ok, err}
use kubebao.Crypto.Aead.{kuznyechik_key_size}

-- A value of the JSON document that the store keeps; a number has no sign and no fraction.
pub data Json : Type 0 where
  string : List ℕ → Json
  number : ℕ → Json
  structured : Json

-- A value of the decoded object: a string, a float64, a json.Number, or anything else.
pub data Value : Type 0 where
  text : List ℕ → Value
  float json_number : ℕ → Value
  other : Value

-- The two fields of the KV entry that the package reads and writes, in the store and decoded.
pub record Entry : Type 0 where
  pub key : Option Json
  pub version : Option Json

pub record KeyData : Type 0 where
  pub key : Option Value
  pub version : Option Value

-- What the client library of OpenBao makes of a number.
pub record Client : Type 0 where
  pub number_value : ℕ → Value

-- The library keeps numbers as json.Number.
pub record IsNumberClient (client : Client) : Type 0 where
  pub keeps_number : (n : ℕ) → client.number_value n ≡ json_number n

abbrev pub decode_json : Client → Json → Value
decode_json client (string t) = text t
decode_json client (number n) = client.number_value n
decode_json client structured = other

abbrev pub decode_value : Client → Option Json → Option Value
decode_value client none = none
decode_value client (some v) = some (decode_json client v)

abbrev pub decode_entry : Client → Option Entry → Option KeyData
decode_entry client none = none
decode_entry client (some entry) =
    some
      (record { key = decode_value client entry.key; version = decode_value client entry.version })

-- `base64.StdEncoding`
pub record Codec : Type 0 where
  pub encode : List ℕ → List ℕ
  pub decode : List ℕ → Option (List ℕ)

-- Decoding undoes encoding.
pub record IsCodec (c : Codec) : Type 0 where
  pub round_trip : (bytes : List ℕ) → c.decode (c.encode bytes) ≡ some bytes

-- What comes of a write: it is done, it is refused, or it is done but the answer gets lost.
pub data WriteFate : Type 0 where
  done refused unanswered : WriteFate

-- The KV entry at the manager's path, whether a read reaches the store, what comes of a write, and
-- what `rand.Read` delivers.
pub record World : Type 0 where
  pub stored : Option Entry
  pub readable : Bool
  pub write_fate : WriteFate
  pub random : Option (List ℕ)

pub data KmsError : Type 0 where
  key_field decode_key wrong_size not_found generate_failed write_failed : KmsError

-- `client.KVRead`: an error if the store does not answer or has no entry.
unfoldable pub kv_read : Client → World → Option KeyData
kv_read client w = if w.readable then decode_entry client w.stored else none

-- `client.KVWrite`: whether it returns no error, and the world after it.
unfoldable pub kv_write : World → Entry → Bool × World
kv_write w entry = elim w.write_fate [
  | done ↦ (true, record w { stored = some entry })
  | refused ↦ (false, w)
  | unanswered ↦ (false, record w { stored = some entry })
]

-- The fields that change, and the flag; the path and the client stay with the world.
pub record KeyManager : Type 0 where
  pub create_if_not_exists : Bool
  pub cached_key : Option (List ℕ)
  pub key_version : ℕ

-- `NewKeyManager`
abbrev pub new_key_manager : Bool → KeyManager
new_key_manager create = record {
  create_if_not_exists = create;
  cached_key = none;
  key_version = 0;
}

-- `version := 1; if v, ok := data["version"].(float64); ok { version = int(v) }`
unfoldable pub version_of : Option Value → ℕ
version_of (some (float v)) = v
version_of (some (json_number v)) = 1
version_of (some (text t)) = 1
version_of (some other) = 1
version_of none = 1

-- A key and its version.
abbrev pub VersionedKey : Type 0
VersionedKey = List ℕ × ℕ

module _ (codec : Codec) where
  sized_key : Option (List ℕ) → ℕ → Result KmsError VersionedKey
  sized_key none version = err decode_key
  sized_key (some key) version =
      if length key == kuznyechik_key_size then ok (key, version) else err wrong_size

  decode_field : Option Value → ℕ → Result KmsError VersionedKey
  decode_field (some (text t)) version = sized_key (codec.decode t) version
  decode_field (some (float v)) version = err key_field
  decode_field (some (json_number v)) version = err key_field
  decode_field (some other) version = err key_field
  decode_field none version = err key_field

  unfoldable pub parse_key_data : KeyData → Result KmsError VersionedKey
  unfolding sized_key decode_field version_of
  parse_key_data entry = decode_field entry.key (version_of entry.version)

  -- What a method returns, and the manager and the world after it.
  abbrev pub Outcome : Type 0
  Outcome = Result KmsError VersionedKey × KeyManager × World

  -- The entry was read: parse it and fill the cache.
  load_key : KeyManager → World → Result KmsError VersionedKey → Outcome
  load_key km w (err e) = (err e, km, w)
  load_key km w (ok (key, version)) =
      (ok (key, version), record km { cached_key = some key; key_version = version }, w)

  -- The JSON of `map[string]interface{}{"key": ..., "version": 1}`
  abbrev pub new_entry : List ℕ → Entry
  new_entry key = record { key = some (string (codec.encode key)); version = some (number 1) }

  finish_write : KeyManager → List ℕ → Bool × World → Outcome
  finish_write km key (false, w) = (err write_failed, km, w)
  finish_write km key (true, w) =
      (ok (key, 1), record km { cached_key = some key; key_version = 1 }, w)

  -- Generate a key, write it, and fill the cache.
  create_key : KeyManager → World → Option (List ℕ) → Outcome
  unfolding finish_write kv_write
  create_key km w none = (err generate_failed, km, w)
  create_key km w (some key) = finish_write km key (kv_write w (new_entry key))

  after_read : KeyManager → World → Option KeyData → Outcome
  unfolding load_key create_key parse_key_data
  after_read km w (some entry) = load_key km w (parse_key_data entry)
  after_read km w none =
      if not km.create_if_not_exists then (err not_found, km, w) else create_key km w w.random

  -- `GetKeyInfo`: `ok none` is `Exists: false`.
  info_of : Option KeyData → Result KmsError (Option ℕ)
  unfolding parse_key_data
  info_of none = ok none
  info_of (some entry) = elim (parse_key_data entry) [ ok kv ↦ ok (some kv.1) | err e ↦ err e ]

  module _ (client : Client) where
    from_cache : KeyManager → World → Option (List ℕ) → Outcome
    unfolding after_read kv_read
    from_cache km w (some key) = (ok (key, km.key_version), km, w)
    from_cache km w none = after_read km w (kv_read client w)

    unfoldable pub get_or_create_key : KeyManager → World → Outcome
    unfolding from_cache
    get_or_create_key km w = from_cache km w km.cached_key

    unfoldable pub get_key_info : World → Result KmsError (Option ℕ)
    unfolding info_of kv_read
    get_key_info w = info_of (kv_read client w)

-- `InvalidateCache`; the zeroing of the old slice is not visible, since callers have copies.
unfoldable pub invalidate_cache : KeyManager → KeyManager
invalidate_cache km = record km { cached_key = none }
