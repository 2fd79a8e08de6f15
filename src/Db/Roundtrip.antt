-- ===== src/Db/Roundtrip.antt =====
-- What one client sees of its own calls.
use locket.Prelude.{◌≡◌, ◌⊎◌, false, none, some, eq_refl, arith, ap, sym, ◌∙◌}
use locket.Prelude.Int64.{ℤ}
use locket.Models.{
  Error, TypeCode, Resource, get_resource, get_type_code, unknown_code, lock_code, presence_code,
}
use locket.Models.Types.{get_type_code-get_resource}
use locket.Sql.{is_foreign}
use locket.Db.{Lock, LockDb}
use locket.Db.Contract.{IsLockDb, Locked, Released, Fetched, stored}

stored_id :
    (r : Resource) (l : Lock)
    → (r.type_code ≡ unknown_code) ⊎ (r.type_code ≡ lock_code) ⊎ (r.type_code ≡ presence_code)
    → l.resource ≡ get_resource r
    → stored l ≡ l
stored_id r l h e =
    ap (λ (c : TypeCode). record l { resource = record (l.resource) { type_code = c } })
      (ap (λ (x : Resource). get_type_code x.type) e
        ∙ get_type_code-get_resource r h
        ∙ ap (λ (x : Resource). x.type_code) (sym e))

module _ (db : LockDb) (laws : IsLockDb db) where
  open laws use {table}

  -- Over any LockDB that keeps its contract, a Fetch of the key right after a granted Lock of a
  -- resource whose type code is in the enum, if it returns no error, returns the very lock that the
  -- Lock returned.
  pub fetch-lock :
      (r : Resource) (ttl : ℤ) (s : db.Store) (l : Lock)
      → (r.type_code ≡ unknown_code) ⊎ (r.type_code ≡ lock_code) ⊎ (r.type_code ≡ presence_code)
      → (db.lock r ttl s).0 ≡ some l
      → (db.lock r ttl s).1 ≡ none
      → (db.fetch r.key (db.lock r ttl s).2).1 ≡ none
      → (db.fetch r.key (db.lock r ttl s).2).0 ≡ some l
  fetch-lock r ttl s l code got granted answered = elim (laws.lock_Locked r ttl s) [
    | Locked.granted l' a _ _ g effect ↦ elim (laws.fetch_Fetched r.key (db.lock r ttl s).2) [
      | Fetched.found m b _ there _ _ ↦
          let e : l' ≡ l = (cc) in
          ground (arith, b, there, effect r.key, eq_refl r.key, stored_id r l' code g.resource, e)
      | Fetched.missing e _ _ ↦ absurd (cc)
      | Fetched.failed x e _ _ ↦ absurd (cc)
    ]
    | Locked.collided e _ _ ↦ absurd (cc)
    | Locked.failed x e _ _ ↦ absurd (cc)
  ]

  -- Over any LockDB that keeps its contract, right after a Release that returned no error a Lock of
  -- that key, by any owner, is granted, unless it fails with an error of the database.
  pub lock-release :
      (r r' : Resource) (ttl : ℤ) (s : db.Store)
      → r'.key ≡ r.key
      → (db.release r s).0 ≡ none
      → ((e : Error) → (db.lock r' ttl (db.release r s).1).1 ≡ some e → is_foreign e ≡ false)
      → (l : Lock) × ((db.lock r' ttl (db.release r s).1).0 ≡ some l)
        × ((db.lock r' ttl (db.release r s).1).1 ≡ none)
  lock-release r r' ttl s same released answers = elim (laws.release_Released r s) [
    | Released.removed _ _ gone ↦ elim (laws.lock_Locked r' ttl (db.release r s).1) [
      | Locked.granted l a b _ _ _ ↦ (l, a, b)
      | Locked.collided _ taken _ ↦ absurd (ground (arith, taken, gone r'.key, same, eq_refl r.key))
      | Locked.failed x e f _ ↦ absurd (ground (arith, answers x e, f))
    ]
    | Released.not_owner _ e _ _ _ ↦ absurd (cc)
    | Released.failed _ e _ _ ↦ absurd (cc)
  ]
