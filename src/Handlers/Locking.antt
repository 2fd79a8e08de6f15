-- ===== src/Handlers/Locking.antt =====
-- What a Lock request does, on every branch.
use locket.Prelude.{
  String, ◌≡◌, ◌≢◌, inl, inr, refl, true, false, Option, none, some, ◌==◌, if◌then◌else◌, Result,
  ok, err, Outcome, returned, panicked, Returns, arith, Bool-cases, str_eq-cases, ap, ◌∙◌,
}
use locket.Prelude.Int64.{pos, leb_ℤ}
use locket.Models.{
  Error, Resource, LockRequest, invalid_type, invalid_owner, invalid_ttl, lock_collision,
}
use locket.Sql.{is_foreign}
use locket.Db.{Lock, LockDb}
use locket.Db.Contract.{Table, IsLockDb, IsGrant, Locked, SameTable, is_free, stored}
use locket.Expiration.LockPick.{LockPick, register_ttl}
use locket.Expiration.LockPick.Registry.{IsWellFormed, register_ttl-IsWellFormed}
use locket.Expiration.LockPick.Index.{Registers, register_ttl-Registers}
use locket.Handlers.{
  Server, lock, lock_resource, lock_valid, registered, exit_if_unrecoverable, validate,
  validate_type, lock_request,
}

-- Why a Lock request was refused with `e`.
pub data Reason (before : Table) (req : LockRequest) (e : Error) : Type 0 where
  inconsistent : validate (lock_request req) ≡ some e → Reason before req e
  no_ttl : leb_ℤ req.ttl_in_seconds (pos 0) ≡ true → e ≡ invalid_ttl → Reason before req e
  no_owner :
      (r : Resource)
      → req.resource ≡ some r
      → r.owner ≡ ""
      → e ≡ invalid_owner
      → Reason before req e
  held :
      (r : Resource)
      → req.resource ≡ some r
      → is_free (before r.key) r.owner ≡ false
      → e ≡ lock_collision
      → Reason before req e
  database : is_foreign e ≡ true → Reason before req e

nil_invalid :
    (req : LockRequest) → req.resource ≡ none → validate (lock_request req) ≡ some invalid_type
unfolding validate validate_type
nil_invalid req h = rw h

pub exit_if_unrecoverable_keeps :
    {db : LockDb} (e : Error) (s : Server db)
    → ((exit_if_unrecoverable e s).store ≡ s.store) × ((exit_if_unrecoverable e s).pick ≡ s.pick)
unfolding exit_if_unrecoverable
exit_if_unrecoverable_keeps e s = ground arith

module _ {db : LockDb} (laws : IsLockDb db) where
  open laws use {table}

  -- The request was granted: the table holds the new lock, and its expiry is registered.
  pub record Granted (req : LockRequest) (s s' : Server db) : Type 0 where
    pub r : Resource
    pub resource : req.resource ≡ some r
    pub lock : Lock
    pub positive : leb_ℤ req.ttl_in_seconds (pos 0) ≡ false
    pub owned : r.owner ≢ ""
    pub free : is_free (table s.store r.key) r.owner ≡ true
    pub grant : IsGrant r req.ttl_in_seconds (table s.store r.key) lock
    pub effect :
        (k : String)
        → table s'.store k ≡ (if r.key == k then some (stored lock) else table s.store k)
    pub registers : Registers lock s.pick s'.pick
    pub pick : IsWellFormed s'.pick

  pub record Refused (req : LockRequest) (e : Error) (s s' : Server db) : Type 0 where
    pub reason : Reason (table s.store) req e
    pub table_kept : SameTable (table s'.store) (table s.store)
    pub pick_kept : s'.pick ≡ s.pick

  abbrev pub LockAnswer : LockRequest → Server db → Result Error (Unit {0}) × Server db → Type 0
  LockAnswer req s (ok _, s') = Granted req s s'
  LockAnswer req s (err e, s') = Refused req e s s'

  module _ (req : LockRequest) (s : Server db) (v : IsWellFormed s.pick) where
    registered_lem :
        (l : Lock) (s₁ : Server db) (o : Outcome LockPick)
        → Returns IsWellFormed o
        → Returns (Registers l s.pick) o
        → ((s' : Server db)
            → s'.store ≡ s₁.store
            → Registers l s.pick s'.pick
            → IsWellFormed s'.pick
            → Granted req s s')
        → Returns (LockAnswer req s) (registered o s₁)
    unfolding registered
    registered_lem l s₁ panicked h g k = h
    registered_lem l s₁ (returned p) h g k = k (record s₁ { pick = p }) refl g h

    refused_lem :
        (e : Error) (s₁ : Server db)
        → Reason (table s.store) req e
        → SameTable (table s₁.store) (table s.store)
        → s₁.pick ≡ s.pick
        → Refused req e s (exit_if_unrecoverable e s₁)
    refused_lem e s₁ why same p =
        let (a, b) = exit_if_unrecoverable_keeps e s₁ in
        record { reason = why; table_kept = λ k. ap (λ x. table x k) a ∙ same k; pick_kept = b ∙ p }

    lock_resource_lem :
        (r : Resource)
        → req.resource ≡ some r
        → Returns (LockAnswer req s) (lock_resource r req.ttl_in_seconds s)
    unfolding lock_resource
    lock_resource_lem r at = elim (Bool-cases (leb_ℤ req.ttl_in_seconds (pos 0))) [
      | inl e ↦
          rw (e, lock_resource)
            (record { reason = Reason.no_ttl e refl; table_kept = λ k. refl; pick_kept = refl })
      | inr e ↦ elim (str_eq-cases r.owner "") [
        | inl (o, f) ↦
            rw (e, f, lock_resource)
              (record {
                reason = Reason.no_owner r at o refl;
                table_kept = λ k. refl;
                pick_kept = refl;
              })
        | inr (o, f) ↦
            rw (e, f, lock_resource)
              (elim (laws.lock_Locked r req.ttl_in_seconds s.store) [
                | Locked.granted l a b free g effect ↦
                    rw (a, b)
                      (registered_lem l
                        (record s { store = (db.lock r req.ttl_in_seconds s.store).2 })
                        (register_ttl l s.pick) (register_ttl-IsWellFormed l s.pick v)
                        (register_ttl-Registers l s.pick v)
                        (λ s' st reg wf. record {
                          r = r;
                          resource = at;
                          lock = l;
                          positive = e;
                          owned = o;
                          free = free;
                          grant = g;
                          effect = λ k. ap (λ x. table x k) st ∙ effect k;
                          registers = reg;
                          pick = wf;
                        }))
                | Locked.collided a taken same ↦
                    rw (a) (refused_lem lock_collision _ (Reason.held r at taken refl) same refl)
                | Locked.failed x a f same ↦ rw (a) (refused_lem x _ (Reason.database f) same refl)
              ])
      ]
    ]

    lock_valid_lem :
        (o : Option Error) (p : Option Resource)
        → validate (lock_request req) ≡ o
        → req.resource ≡ p
        → Returns (LockAnswer req s) (lock_valid o p req.ttl_in_seconds s)
    unfolding lock_valid
    lock_valid_lem (some e) p h g = record {
      reason = Reason.inconsistent h;
      table_kept = λ k. refl;
      pick_kept = refl;
    }
    lock_valid_lem none (some r) h g = lock_resource_lem r g
    lock_valid_lem none none h g = absurd (cc (nil_invalid req g))

    -- Over any LockDB that keeps its contract and from a well-formed registry, the handler `Lock`
    -- returns without a panic on every request, one with no resource included. A granted request
    -- has a positive TTL and an owner, found the key free, changed the table at that key only, to
    -- the lock granted, and registered that lock's expiry. A refused one has an inconsistent type,
    -- no positive TTL, no owner, a key that another owner holds, or met an error of the database;
    -- it changes neither table nor registry.
    pub lock_answers : Returns (LockAnswer req s) (lock req s)
    unfolding lock
    lock_answers = lock_valid_lem (validate (lock_request req)) req.resource refl refl
