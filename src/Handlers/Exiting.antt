-- ===== src/Handlers/Exiting.antt =====
-- The exit channel of the handlers.
use locket.Prelude.{
  ◌≡◌, Bool, true, false, not, ◌&&◌, ◌||◌, Option, none, some, Result, ok, err, Outcome, returned,
  panicked, inl, inr, arith, refl, Bool-cases, String, List, map, ◌==◌,
}
use locket.Prelude.Int64.{ℤ, pos, leb_ℤ}
use locket.Models.{
  Error, Resource, LockRequest, ReleaseRequest, FetchRequest, FetchAllRequest, unrecoverable_error,
  TypeCode, invalid_type, invalid_ttl, invalid_owner, get_type_of, get_type_code_of,
}
use locket.Db.{Lock, LockDb}
use locket.Expiration.LockPick.{LockPick, register_ttl}
use locket.Handlers.{
  Server, Answer, lock, release, fetch, fetch_all, lock_reply, registered, lock_resource,
  lock_valid, release_reply, release_resource, fetch_reply, fetch_all_reply, fetch_all_valid,
  exit_if_unrecoverable, validate, validate_type,
}

-- The caller is told of an error after which the service cannot go on.
abbrev pub reports_unrecoverable : {A : Type 0} → Result Error A → Bool
reports_unrecoverable (ok a) = false
reports_unrecoverable (err unrecoverable_error) = true
reports_unrecoverable (err _) = false

module _ {db : LockDb} {A : Type 0} (s : Server db) where
  -- The exit is requested by such an answer, if the receiver still waits, and by no other.
  pub record Exits (r : Result Error A) (s' : Server db) : Type 0 where
    pub exit_requested :
        s'.exit_requested ≡ (s.exit_requested || (s.receiver_waits && reports_unrecoverable r))
    pub receiver_waits : s'.receiver_waits ≡ (s.receiver_waits && not (reports_unrecoverable r))

  -- What holds of an answer, where the call gives one.
  abbrev pub IfAnswered : Answer db A → Type 0
  IfAnswered panicked = Unit
  IfAnswered (returned (r, s')) = Exits r s'

  Exits-ok :
      (a : A) (s' : Server db)
      → s'.exit_requested ≡ s.exit_requested
      → s'.receiver_waits ≡ s.receiver_waits
      → Exits (ok a) s'
  Exits-ok a s' h k = record { exit_requested = ground arith; receiver_waits = ground arith }

  Exits-err :
      (e : Error) (s' : Server db)
      → s'.exit_requested ≡ s.exit_requested
      → s'.receiver_waits ≡ s.receiver_waits
      → Exits (err e) (exit_if_unrecoverable e s')
  unfolding exit_if_unrecoverable
  Exits-err e s' h k = record { exit_requested = ground arith; receiver_waits = ground arith }

  -- An error of the handler's own, before the database is asked.
  Exits-refused : (e : Error) → reports_unrecoverable {A = A} (err e) ≡ false → Exits (err e) s
  Exits-refused e h = record { exit_requested = ground arith; receiver_waits = ground arith }

own_error :
    (type : String) (code : TypeCode) (e : Error)
    → validate_type type code ≡ some e
    → e ≡ invalid_type
unfolding validate_type
own_error type code e h = ground arith

module _ {db : LockDb} (s : Server db) where
  lock_reply-Exits :
      (lock : Option Lock) (e : Option Error) (store : db.Store)
      → IfAnswered s (lock_reply lock e (record s { store = store }))
  unfolding lock_reply registered
  lock_reply-Exits lock (some e) store = Exits-err s e (record s { store = store }) refl refl
  lock_reply-Exits none none store = tt
  lock_reply-Exits (some lock) none store = go (register_ttl lock s.pick)
    where
      go : (o : Outcome LockPick) → IfAnswered s (registered o (record s { store = store }))
      go panicked = tt
      go (returned pick) = Exits-ok s tt (record s { store = store; pick = pick }) refl refl

  lock_resource-Exits : (r : Resource) (ttl : ℤ) → IfAnswered s (lock_resource r ttl s)
  unfolding lock_resource
  lock_resource-Exits r ttl = elim (Bool-cases (leb_ℤ ttl (pos 0))) [
    | inl p ↦ rw p (Exits-refused s invalid_ttl refl)
    | inr p ↦ elim (Bool-cases (r.owner == "")) [
      | inl q ↦ rw (p, q) (Exits-refused s invalid_owner refl)
      | inr q ↦
          rw (p, q)
            (lock_reply-Exits (db.lock r ttl s.store).0 (db.lock r ttl s.store).1
              (db.lock r ttl s.store).2)
    ]
  ]

  -- Validation answers with its own error only.
  Own : Option Error → Type 0
  Own o = (e : Error) → o ≡ some e → e ≡ invalid_type

  refused : {A : Type 0} (e : Error) → e ≡ invalid_type → Exits {A = A} s (err e) s
  refused e h = Exits-refused s e (rw h refl)

  lock_valid-Exits :
      (o : Option Error) (r : Option Resource) (ttl : ℤ)
      → Own o
      → IfAnswered s (lock_valid o r ttl s)
  unfolding lock_valid Own
  lock_valid-Exits (some e) r ttl own = refused e (own e refl)
  lock_valid-Exits none none ttl own = tt
  lock_valid-Exits none (some r) ttl own = lock_resource-Exits r ttl

  lock-Exits : (req : LockRequest) → IfAnswered s (lock req s)
  unfolding lock validate Own
  lock-Exits req =
      lock_valid-Exits (validate_type (get_type_of req.resource) (get_type_code_of req.resource))
        req.resource req.ttl_in_seconds
        (own_error (get_type_of req.resource) (get_type_code_of req.resource))

  release_reply-Exits :
      (e : Option Error) (store : db.Store)
      → IfAnswered s (release_reply e (record s { store = store }))
  unfolding release_reply
  release_reply-Exits none store = Exits-ok s tt (record s { store = store }) refl refl
  release_reply-Exits (some e) store = Exits-err s e (record s { store = store }) refl refl

  release_resource-Exits : (r : Option Resource) → IfAnswered s (release_resource r s)
  unfolding release_resource
  release_resource-Exits none = tt
  release_resource-Exits (some r) =
      release_reply-Exits (db.release r s.store).0 (db.release r s.store).1

  fetch_reply-Exits :
      (lock : Option Lock) (e : Option Error) (store : db.Store)
      → IfAnswered s (fetch_reply lock e (record s { store = store }))
  unfolding fetch_reply
  fetch_reply-Exits lock (some e) store = Exits-err s e (record s { store = store }) refl refl
  fetch_reply-Exits none none store = tt
  fetch_reply-Exits (some lock) none store =
      Exits-ok s lock.resource (record s { store = store }) refl refl

  fetch_all_reply-Exits :
      (locks : List Lock) (e : Option Error) (store : db.Store)
      → IfAnswered s (fetch_all_reply locks e (record s { store = store }))
  unfolding fetch_all_reply
  fetch_all_reply-Exits locks (some e) store = Exits-err s e (record s { store = store }) refl refl
  fetch_all_reply-Exits locks none store =
      Exits-ok s (map (λ (l : Lock). l.resource) locks) (record s { store = store }) refl refl

  fetch_all_valid-Exits :
      (o : Option Error) (req : FetchAllRequest) → Own o → IfAnswered s (fetch_all_valid o req s)
  unfolding fetch_all_valid Own
  fetch_all_valid-Exits (some e) req own = refused e (own e refl)
  fetch_all_valid-Exits none req own = fetch_all_reply-Exits _ _ _

  -- For each of the four calls, over any LockDB: if the call answers, then it requests the exit of the
  -- service exactly if the answer is an unrecoverable error and the receiver of the exit channel waits,
  -- who then waits no more; an exit requested before stays requested.
  pub requests_exit :
      (locking : LockRequest) (releasing : ReleaseRequest) (fetching : FetchRequest)
      (listing : FetchAllRequest)
      → IfAnswered s (lock locking s)
        × IfAnswered s (release releasing s)
        × IfAnswered s (fetch fetching s)
        × IfAnswered s (fetch_all listing s)
  unfolding release fetch fetch_all validate Own
  requests_exit locking releasing fetching listing = (
    lock-Exits locking,
    release_resource-Exits releasing.resource,
    fetch_reply-Exits _ _ _,
    fetch_all_valid-Exits _ listing (own_error listing.type listing.type_code),
  )
