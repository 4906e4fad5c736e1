-- ===== src/Kms/KeyManager/Runs.antt =====
-- Runs of a process with one key manager: calls of `GetOrCreateKey` (by `Encrypt` and `Decrypt`),
-- calls of `GetKeyInfo` (by the health check), and whatever happens to the store in between, such as
-- the writing of a new key by `RotateKey` of internal/ui/handlers.go. No code of the repository calls
-- `InvalidateCache`.
use kubebao.Common.{◌≡◌, subst, sym}
use kubebao.Common.Result.{ok}
use kubebao.Kms.KeyManager.{Codec, Client, World, KeyManager, VersionedKey, get_or_create_key}
use kubebao.Kms.KeyManager.Laws.{Holds, get_or_create_key-hit, get_or_create_key-Holds}

pub record Process : Type 0 where
  pub manager : KeyManager
  pub world : World

module _ (codec : Codec) (client : Client) where
  -- The process after a call.
  abbrev pub after_call : Process → Process
  after_call p =
      let (result, km, w) = get_or_create_key codec client p.manager p.world in
      record { manager = km; world = w }

  pub data Step : Process → Process → Type 0 where
    call : (p : Process) → Step p (after_call p)
    info : (p : Process) → Step p p
    outside : (p : Process) (w : World) → Step p (record p { world = w })

  pub data Reach (start : Process) : Process → Type 0 where
    here : Reach start start
    next : {p q : Process} → Reach start p → Step p q → Reach start q

  Step-Holds :
      {p q : Process} (kv : VersionedKey) → Step p q → Holds p.manager kv → Holds q.manager kv
  Step-Holds kv (call p) h =
      subst (λ o. Holds o.1 kv) (sym (get_or_create_key-hit codec client p.manager p.world kv h)) h
  Step-Holds kv (info p) h = h
  Step-Holds kv (outside p w) h = h

  Reach-Holds :
      {p q : Process} (kv : VersionedKey) → Holds p.manager kv → Reach p q → Holds q.manager kv
  Reach-Holds kv h here = h
  Reach-Holds kv h (next r s) = Step-Holds kv s (Reach-Holds kv h r)

  -- Once `GetOrCreateKey` has returned a key and its version, it returns these in every state that the
  -- process reaches by calls of `GetOrCreateKey` and `GetKeyInfo` and by any changes of the store: a
  -- new key in the store is never used while the process runs, unless `InvalidateCache` is called.
  pub get_or_create_key-stable :
      (p q : Process) (kv : VersionedKey) (km : KeyManager) (w : World)
      → get_or_create_key codec client p.manager p.world ≡ (ok kv, km, w)
      → Reach (record { manager = km; world = w }) q
      → get_or_create_key codec client q.manager q.world ≡ (ok kv, q.manager, q.world)
  get_or_create_key-stable p q kv km w h r =
      get_or_create_key-hit codec client q.manager q.world kv
        (Reach-Holds kv (get_or_create_key-Holds codec client p.manager p.world kv km w h) r)
