-- ===== src/Handlers.antt =====
-- handlers/handler.go: the four calls of the service, over a LockDb and the registry of expirations.
-- The receiver of exitCh is the goroutine of cmd/locket/main.go, which takes one value.
pub mod Validation
pub mod Locking
pub mod Releasing
pub mod Exclusion
pub mod Exiting
use locket.Prelude.{
  String, Bool, true, false, ◌&&◌, Option, none, some, List, [], ◌∷◌, map, ◌==◌, not, if◌then◌else◌,
  Result, ok, err, Outcome, returned, panicked,
}
use locket.Prelude.Int64.{ℤ, pos, eq_ℤ, leb_ℤ}
use locket.Models.{
  Error, Resource, TypeCode, LockRequest, ReleaseRequest, FetchRequest, FetchAllRequest,
  invalid_ttl, invalid_owner, invalid_type, unrecoverable_error, unknown_code, lock_code,
  presence_code, lock_type, presence_type, type_code_name, get_type_of, get_type_code_of, get_type,
}
use locket.Db.{Lock, LockDb}
use locket.Expiration.LockPick.{LockPick, register_ttl}

pub record Server (db : LockDb) : Type 0 where
  pub store : db.Store
  pub pick : LockPick
  pub receiver_waits : Bool
  pub exit_requested : Bool

pub data Request : Type 0 where
  lock_request : LockRequest → Request
  release_request : ReleaseRequest → Request
  fetch_request : FetchRequest → Request
  fetch_all_request : FetchAllRequest → Request

-- The tests of `validate` on a type and a type code; nil is `none`.
unfoldable pub validate_type : String → TypeCode → Option Error
unfolding type_code_name
validate_type type code = elim (type_code_name code) [
  | none ↦ some invalid_type
  | some _ ↦
      if eq_ℤ code unknown_code
      then (if not (type == presence_type) && not (type == lock_type)
          then some invalid_type
          else none)
      else if type == ""
      then none
      else if eq_ℤ code lock_code && not (type == lock_type)
      then some invalid_type
      else if eq_ℤ code presence_code && not (type == presence_type)
      then some invalid_type
      else none
]

unfoldable pub validate : Request → Option Error
validate (lock_request req) =
    validate_type (get_type_of req.resource) (get_type_code_of req.resource)
validate (fetch_all_request req) = validate_type req.type req.type_code
validate _ = none

abbrev is_unrecoverable : Error → Bool
is_unrecoverable unrecoverable_error = true
is_unrecoverable _ = false

-- What a call answers: a response or an error.
abbrev pub Answer : LockDb → Type 0 → Type 0
Answer db A = Outcome (Result Error A × Server db)

module _ {db : LockDb} where
  -- The send on exitCh, which is dropped if nobody receives.
  pub exit_if_unrecoverable : Error → Server db → Server db
  exit_if_unrecoverable e s =
      if is_unrecoverable e && s.receiver_waits
      then record s { receiver_waits = false; exit_requested = true }
      else s

  -- A granted lock is registered; reading it panics if the database gave none.
  registered : Outcome LockPick → Server db → Answer db (Unit {0})
  registered panicked s = panicked
  registered (returned pick) s = returned (ok tt, record s { pick = pick })

  lock_reply : Option Lock → Option Error → Server db → Answer db (Unit {0})
  unfolding registered exit_if_unrecoverable
  lock_reply lock (some e) s = returned (err e, exit_if_unrecoverable e s)
  lock_reply (some lock) none s = registered (register_ttl lock s.pick) s
  lock_reply none none s = panicked

  lock_resource : Resource → ℤ → Server db → Answer db (Unit {0})
  unfolding lock_reply
  lock_resource resource ttl s =
      if leb_ℤ ttl (pos 0)
      then returned (err invalid_ttl, s)
      else if resource.owner == ""
      then returned (err invalid_owner, s)
      else (let (lock, e, store) = db.lock resource ttl s.store in
          lock_reply lock e (record s { store = store }))

  -- `req.Resource` is read once validation has passed.
  lock_valid : Option Error → Option Resource → ℤ → Server db → Answer db (Unit {0})
  unfolding lock_resource
  lock_valid (some e) resource ttl s = returned (err e, s)
  lock_valid none none ttl s = panicked
  lock_valid none (some resource) ttl s = lock_resource resource ttl s

  unfoldable pub lock : LockRequest → Server db → Answer db (Unit {0})
  unfolding lock_valid validate
  lock req s = lock_valid (validate (lock_request req)) req.resource req.ttl_in_seconds s

  release_reply : Option Error → Server db → Answer db (Unit {0})
  unfolding exit_if_unrecoverable
  release_reply none s = returned (ok tt, s)
  release_reply (some e) s = returned (err e, exit_if_unrecoverable e s)

  -- The database reads the key and the owner of the resource, also of nil.
  release_resource : Option Resource → Server db → Answer db (Unit {0})
  unfolding release_reply
  release_resource none s = panicked
  release_resource (some resource) s =
      let (e, store) = db.release resource s.store in release_reply e (record s { store = store })

  unfoldable pub release : ReleaseRequest → Server db → Answer db (Unit {0})
  unfolding release_resource
  release req s = release_resource req.resource s

  fetch_reply : Option Lock → Option Error → Server db → Answer db Resource
  unfolding exit_if_unrecoverable
  fetch_reply lock (some e) s = returned (err e, exit_if_unrecoverable e s)
  fetch_reply (some lock) none s = returned (ok lock.resource, s)
  fetch_reply none none s = panicked

  unfoldable pub fetch : FetchRequest → Server db → Answer db Resource
  unfolding fetch_reply
  fetch req s =
      let (lock, e, store) = db.fetch req.key s.store in
      fetch_reply lock e (record s { store = store })

  fetch_all_reply : List Lock → Option Error → Server db → Answer db (List Resource)
  unfolding exit_if_unrecoverable
  fetch_all_reply locks (some e) s = returned (err e, exit_if_unrecoverable e s)
  fetch_all_reply locks none s = returned (ok (map (λ (l : Lock). l.resource) locks), s)

  fetch_all_valid : Option Error → FetchAllRequest → Server db → Answer db (List Resource)
  unfolding fetch_all_reply get_type
  fetch_all_valid (some e) req s = returned (err e, s)
  fetch_all_valid none req s =
      let type =
        get_type (record {
          key = "";
          owner = "";
          value = "";
          type = req.type;
          type_code = req.type_code;
        }) in
      let (locks, e, store) = db.fetch_all type s.store in
      fetch_all_reply locks e (record s { store = store })

  unfoldable pub fetch_all : FetchAllRequest → Server db → Answer db (List Resource)
  unfolding fetch_all_valid validate
  fetch_all req s = fetch_all_valid (validate (fetch_all_request req)) req s
