-- ===== src/Handlers/Exclusion.antt =====
-- Mutual exclusion, over any sequence of requests from any clients.
use locket.Prelude.{
  String, ◌≡◌, ◌≢◌, ◌⊎◌, inl, inr, refl, true, Option, none, some, List, [], ◌∷◌, ◌==◌, ok, err,
  Outcome, returned, panicked, Returns, arith, eq_iff, str_eq-cases, ap,
}
use locket.Models.{
  Error, resource_not_found, Resource, LockRequest, ReleaseRequest, FetchRequest, FetchAllRequest,
  get_resource,
}
use locket.Db.{Lock, LockDb}
use locket.Db.Contract.{Table, IsLockDb, Released, Fetched, SameTable, is_free, owned_by}
use locket.Expiration.LockPick.Registry.{IsWellFormed}
use locket.Handlers.{
  Server, Answer, Request, lock_request, release_request, fetch_request, fetch_all_request, lock,
  release, fetch, fetch_all, release_reply, fetch_all_reply, fetch_all_valid, validate,
  exit_if_unrecoverable,
}
use locket.Handlers.Locking.{Granted, LockAnswer, lock_answers, exit_if_unrecoverable_keeps}

-- The state that a call leaves, whatever it answers.
abbrev pub state_of : {db : LockDb} {A : Type 0} → Answer db A → Outcome (Server db)
state_of panicked = panicked
state_of (returned (_, s)) = returned s

unfoldable pub handle : {db : LockDb} → Request → Server db → Outcome (Server db)
unfolding lock release fetch fetch_all
handle (lock_request req) s = state_of (lock req s)
handle (release_request req) s = state_of (release req s)
handle (fetch_request req) s = state_of (fetch req s)
handle (fetch_all_request req) s = state_of (fetch_all req s)

abbrev and_then : {A : Type 0} → Outcome A → (A → Outcome A) → Outcome A
and_then panicked f = panicked
and_then (returned a) f = f a

unfoldable pub serve : {db : LockDb} → List Request → Server db → Outcome (Server db)
unfolding handle
serve [] s = returned s
serve (req ∷ requests) s = and_then (handle req s) (serve requests)

-- Every request but a release of `k` by `owner`, and a release with no resource.
abbrev pub Spares : String → String → Request → Type 0
Spares k owner (release_request req) =
    (r : Resource) × (req.resource ≡ some r) × ((r.key ≢ k) ⊎ (r.owner ≢ owner))
Spares k owner _ = Unit

abbrev pub All {ℓ} : {A : Type ℓ} → (A → Type 0) → List A → Type 0
All P [] = Unit
All P (x ∷ xs) = P x × All P xs

owner-get_resource : (r : Resource) → (get_resource r).owner ≡ r.owner
unfolding get_resource
owner-get_resource r = refl

module _ {db : LockDb} (laws : IsLockDb db) (k owner : String) (named : owner ≢ "") where
  open laws use {table}

  pub record Holds (s : Server db) : Type 0 where
    pub owned : owned_by (table s.store k) owner ≡ true
    pub pick : IsWellFormed s.pick

  abbrev pub kept_owner :
      {t u : Table} → SameTable u t → owned_by (t k) owner ≡ true → owned_by (u k) owner ≡ true
  kept_owner same h = rw (same k) h

  exit_Holds : (e : Error) (s : Server db) → Holds s → Holds (exit_if_unrecoverable e s)
  exit_Holds e s h =
      let (a, b) = exit_if_unrecoverable_keeps e s in
      record { owned = rw a h.owned; pick = rw b h.pick }

  -- A key that is held is granted to its holder only.
  grant_owner :
      (o : Option Lock) (r : Resource) (l : Lock)
      → owned_by o owner ≡ true
      → is_free o r.owner ≡ true
      → l.resource ≡ get_resource r
      → (l.owner == owner) ≡ true
  grant_owner none r l h free e = absurd (cc)
  grant_owner (some old) r l h free e = ground (
    arith,
    eq_iff old.owner owner,
    eq_iff old.owner r.owner,
    eq_iff old.owner "",
    eq_iff l.owner owner,
    owner-get_resource r,
    ap (λ (x : Resource). x.owner) e,
  )

  Granted-owned :
      (req : LockRequest) (s s' : Server db)
      → owned_by (table s.store k) owner ≡ true
      → Granted laws req s s'
      → owned_by (table s'.store k) owner ≡ true
  Granted-owned req s s' h g = elim (str_eq-cases g.r.key k) [
    | inl (same, e) ↦
        rw (g.effect k, e)
          (grant_owner (table s.store k) g.r g.lock h (rw (← same) g.free) g.grant.resource)
    | inr (_, e) ↦ rw (g.effect k, e) h
  ]

  lock_Holds : (req : LockRequest) (s : Server db) → Holds s → Returns Holds (state_of (lock req s))
  lock_Holds req s h = go (lock req s) (lock_answers laws req s h.pick)
    where
      go :
          (a : Answer db (Unit {0}))
          → Returns (LockAnswer laws req s) a
          → Returns Holds (state_of a)
      go panicked f = f
      go (returned (ok _, s')) g = record {
        owned = Granted-owned req s s' h.owned g;
        pick = g.pick;
      }
      go (returned (err _, s')) r = record {
        owned = kept_owner r.table_kept h.owned;
        pick = rw (r.pick_kept) h.pick;
      }

  spared_owner :
      (r : Resource) (o : Option Lock)
      → (r.key ≢ k) ⊎ (r.owner ≢ owner)
      → r.key ≡ k
      → owned_by o r.owner ≡ true
      → owned_by o owner ≡ true
      → ⊥
  spared_owner r none spared same a b = cc
  spared_owner r (some l) spared same a b =
      ground (arith, eq_iff l.owner r.owner, eq_iff l.owner owner)

  -- A release that does not name both the key and the owner leaves the key with its owner.
  pub released_owner :
      (r : Resource) (s : db.Store)
      → (r.key ≢ k) ⊎ (r.owner ≢ owner)
      → owned_by (table s k) owner ≡ true
      → owned_by (table (db.release r s).1 k) owner ≡ true
  released_owner r s spared h = elim (laws.release_Released r s) [
    | Released.removed _ owned effect ↦ elim (str_eq-cases r.key k) [
      | inl (same, e) ↦ absurd (spared_owner r (table s r.key) spared same owned (rw same h))
      | inr (_, e) ↦ rw (effect k, e) h
    ]
    | Released.not_owner _ _ _ _ same ↦ kept_owner same h
    | Released.failed _ _ _ same ↦ kept_owner same h
  ]

  release_Holds :
      (req : ReleaseRequest) (s : Server db)
      → Holds s
      → Spares k owner (release_request req)
      → Returns Holds (state_of (release req s))
  unfolding release
  release_Holds req s h (r, at, spared) =
      rw (at, release)
        (reply (db.release r s.store).0
          (record { owned = released_owner r s.store spared h.owned; pick = h.pick }))
    where
      s₁ : Server db
      s₁ = record s { store = (db.release r s.store).1 }

      reply : (e : Option Error) → Holds s₁ → Returns Holds (state_of (release_reply e s₁))
      reply none k = k
      reply (some x) k = exit_Holds x s₁ k

  fetch_Holds :
      (req : FetchRequest) (s : Server db) → Holds s → Returns Holds (state_of (fetch req s))
  unfolding fetch
  fetch_Holds req s h = elim (laws.fetch_Fetched req.key s.store) [
    | Fetched.found l a b _ _ same ↦
        rw (a, b, fetch) (record { owned = kept_owner same h.owned; pick = h.pick })
    | Fetched.missing a _ same ↦
        rw (a, fetch)
          (exit_Holds resource_not_found s₁
            (record { owned = kept_owner same h.owned; pick = h.pick }))
    | Fetched.failed x a _ same ↦
        rw (a, fetch) (exit_Holds x s₁ (record { owned = kept_owner same h.owned; pick = h.pick }))
  ]
    where
      s₁ : Server db
      s₁ = record s { store = (db.fetch req.key s.store).2 }

  fetch_all_Holds :
      (req : FetchAllRequest) (s : Server db) → Holds s → Returns Holds (state_of (fetch_all req s))
  unfolding fetch_all
  fetch_all_Holds req s h = valid (validate (fetch_all_request req))
    where
      reply :
          (locks : List Lock) (e : Option Error) (s₁ : Server db)
          → Holds s₁
          → Returns Holds (state_of (fetch_all_reply locks e s₁))
      reply locks none s₁ k = k
      reply locks (some x) s₁ k = exit_Holds x s₁ k

      valid : (o : Option Error) → Returns Holds (state_of (fetch_all_valid o req s))
      valid (some e) = h
      valid none =
          reply _ _ _
            (record { owned = kept_owner (laws.fetch_all_keeps _ s.store) h.owned; pick = h.pick })

  pub handle-Holds :
      (req : Request) (s : Server db) → Holds s → Spares k owner req → Returns Holds (handle req s)
  unfolding handle
  handle-Holds (lock_request req) s h _ = lock_Holds req s h
  handle-Holds (release_request req) s h spared = release_Holds req s h spared
  handle-Holds (fetch_request req) s h _ = fetch_Holds req s h
  handle-Holds (fetch_all_request req) s h _ = fetch_all_Holds req s h

  -- Over any LockDB that keeps its contract and from a well-formed registry, a key that a named
  -- owner holds stays with that owner over any sequence of requests, in any order and from anybody,
  -- in which no release names both the key and the owner and each release has a resource. The
  -- service answers all of them without a panic. No expiry happens in the sequence.
  pub serve-Holds :
      (requests : List Request) (s : Server db)
      → Holds s
      → All (Spares k owner) requests
      → Returns Holds (serve requests s)
  unfolding serve
  serve-Holds [] s h _ = h
  serve-Holds (req ∷ requests) s h (spared, rest) =
      next (λ s' h'. serve-Holds requests s' h' rest) (handle req s) (handle-Holds req s h spared)
    where
      next :
          ((s' : Server db) → Holds s' → Returns Holds (serve requests s'))
          → (o : Outcome (Server db)) → Returns Holds o
          → Returns Holds (and_then o (serve requests))
      next go panicked f = f
      next go (returned s') h' = go s' h'
