-- ===== src/Expiration/Check/Race.antt =====
-- A renewal between the comparison and the release of an expiry.
use locket.Prelude.{
  String, ◌≡◌, ◌≢◌, refl, true, Option, none, some, ◌==◌, if◌then◌else◌, eq_refl, arith, ap, sym,
  ◌∙◌, returned, zero, suc,
}
use locket.Prelude.Int64.{ℤ, pos, negsuc, inc_int64}
use locket.Models.{Error, Resource, get_resource}
use locket.Sql.{is_foreign}
use locket.Db.{Lock, LockDb}
use locket.Db.Contract.{Table, IsLockDb, Locked, Released, SameTable, index_of, stored}
use locket.Expiration.Check.{System, fetch_step, release_step}
use locket.Expiration.Check.Safety.{fetch_step-decides}

inc_int64-ne : (i : ℤ) → inc_int64 i ≢ i
inc_int64-ne (pos n) = λ h. ground (arith, h)
inc_int64-ne (negsuc zero) = λ h. cc
inc_int64-ne (negsuc (suc n)) = λ h. ground (arith, h)

get_resource-owner : (r : Resource) → (get_resource r).owner ≡ r.owner
unfolding get_resource
get_resource-owner r = ground arith

-- The release of an expiry, on a table that held a newer lock: the lock is gone, or the database was.
pub data Lost (key : String) (before : Table) (e : Option Error) (after : Table) : Type 0 where
  removed :
      e ≡ none
      → ((k : String) → after k ≡ (if key == k then none else before k))
      → Lost key before e after
  broken :
      (x : Error)
      → e ≡ some x
      → is_foreign x ≡ true
      → SameTable after before
      → Lost key before e after

module _ (db : LockDb) (laws : IsLockDb db) where
  open laws use {table}

  release-Lost :
      (lock l : Lock) (s : db.Store)
      → table s lock.key ≡ some (stored l)
      → l.owner ≡ lock.owner
      → let (e, s') = db.release lock.resource s in Lost lock.key (table s) e (table s')
  release-Lost lock l s at owner = elim (laws.release_Released lock.resource s) [
    | Released.removed e _ effect ↦ removed e effect
    | Released.not_owner l' _ there ne _ ↦ absurd (ne (ground (arith, at, there, owner)))
    | Released.failed x e f same ↦ broken x e f same
  ]

  -- What a Lock has granted between the decision of an expiry and its release.
  pub record Renewed (lock l : Lock) (before : Option Lock × Option Error × db.Store) : Type 0 where
    pub result : before.0 ≡ some l
    pub at : table before.2 lock.key ≡ some (stored l)
    pub index : l.modified_index ≡ inc_int64 lock.modified_index
    pub newer : l.modified_index ≢ lock.modified_index

  -- Over any LockDB that keeps its contract: an expiry has fetched and has decided to release its lock,
  -- and a Lock of the key by the same owner is granted before the release. Then the table holds the
  -- granted lock, whose index is that of the expired lock counted up, and so another; and the release
  -- removes it all the same, or meets an error of the database and changes nothing. It is never refused.
  pub expiry_loses_renewal :
      (lock : Lock) (r : Resource) (ttl : ℤ) (sys decided : System db)
      → fetch_step db lock sys ≡ returned (true, decided)
      → r.key ≡ lock.key
      → r.owner ≡ lock.owner
      → (db.lock r ttl decided.store).1 ≡ none
      → let renewed = db.lock r ttl decided.store in
        let before = record decided { store = renewed.2 } in
        ((l : Lock) × Renewed lock l renewed)
        × Lost lock.key
            (table renewed.2)
            (db.release lock.resource renewed.2).0
            (table (release_step db true lock before).store)
  unfolding release_step
  expiry_loses_renewal lock r ttl sys decided d key owner granted =
      elim (laws.lock_Locked r ttl decided.store) [
        | Locked.granted l a _ _ g effect ↦
            let there : table (db.lock r ttl decided.store).2 lock.key ≡ some (stored l) =
              effect lock.key ∙ ground (arith, key, eq_refl lock.key) in
            let index : l.modified_index ≡ inc_int64 lock.modified_index =
              g.modified_index
              ∙ ap (λ k. inc_int64 (index_of (table decided.store k))) key
              ∙ ap inc_int64 held_index in
            (
              (
                l,
                record {
                  result = a;
                  at = there;
                  index = index;
                  newer = λ p. inc_int64-ne lock.modified_index (sym index ∙ p);
                },
              ),
              release-Lost lock l (db.lock r ttl decided.store).2 there
                  (ap (λ (x : Resource). x.owner) g.resource ∙ get_resource-owner r ∙ owner),
            )
        | Locked.collided e _ _ ↦ absurd (cc)
        | Locked.failed x e _ _ ↦ absurd (cc)
      ]
    where
      held_index : index_of (table decided.store lock.key) ≡ lock.modified_index
      held_index =
          let (same, u) = rw d at (fetch_step-decides db laws lock sys) in
          let (held, at, index, _) = u refl in ap index_of (same lock.key ∙ at) ∙ index
