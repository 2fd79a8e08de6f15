-- ===== src/Expiration/Check/Safety.antt =====
-- An expiry removes the lock it was started for, and no other.
use locket.Prelude.{
  String, ◌≡◌, ◌⊎◌, inl, inr, Bool, true, false, none, some, ◌==◌, if◌then◌else◌, Outcome, returned,
  panicked, Returns, arith, eq_iff, refl, eq_refl, sym, ap, ◌∙◌,
}
use locket.Prelude.Int64.{eq_ℤ_refl}
use locket.Db.{Lock, LockDb}
use locket.Db.Contract.{Table, IsLockDb, Fetched, Released, SameTable}
use locket.Expiration.Check.{
  System, is_unchanged, check_expiration, fetch_step, release_step, finish,
}

-- `after` is `before` without the lock of `lock`, which the table held with its index and its id.
pub record Expires (before after : Table) (lock : Lock) : Type 0 where
  pub held : Lock
  pub at : before lock.key ≡ some held
  pub index : held.modified_index ≡ lock.modified_index
  pub id : held.modified_id ≡ lock.modified_id
  pub owner : held.owner ≡ lock.owner
  pub removed : (k : String) → after k ≡ (if lock.key == k then none else before k)

is_unchanged_index :
    (held lock : Lock) → is_unchanged held lock ≡ true → held.modified_index ≡ lock.modified_index
unfolding is_unchanged
is_unchanged_index held lock u = ground arith

is_unchanged_id :
    (held lock : Lock) → is_unchanged held lock ≡ true → held.modified_id ≡ lock.modified_id
unfolding is_unchanged
is_unchanged_id held lock u = ground (arith, eq_iff held.modified_id lock.modified_id)

is_unchanged_eq :
    (held lock : Lock)
    → held.modified_index ≡ lock.modified_index
    → held.modified_id ≡ lock.modified_id
    → is_unchanged held lock ≡ true
unfolding is_unchanged
is_unchanged_eq held lock i d = rw (i, d, eq_ℤ_refl lock.modified_index) (eq_refl lock.modified_id)

module _ (db : LockDb) (laws : IsLockDb db) (lock : Lock) where
  open laws use {table}

  -- The fetch changes nothing, and decides by what the table holds.
  pub fetch_step-decides :
      (sys : System db)
      → Returns
          (λ d.
            SameTable (table d.1.store) (table sys.store)
            × (d.0 ≡ true
                → (held : Lock) × (table sys.store lock.key ≡ some held)
                  × (held.modified_index ≡ lock.modified_index)
                  × (held.modified_id ≡ lock.modified_id)))
          (fetch_step db lock sys)
  unfolding fetch_step
  fetch_step-decides sys = elim (laws.fetch_Fetched lock.key sys.store) [
    | Fetched.found l a b at _ same ↦
        rw (a, b, fetch_step)
          (same, λ u. (l, at, is_unchanged_index l lock u, is_unchanged_id l lock u))
    | Fetched.missing a _ same ↦ rw (a, fetch_step) (same, λ u. (cc))
    | Fetched.failed x a _ same ↦ rw (a, fetch_step) (same, λ u. (cc))
  ]

  release_step-Expires :
      (sys : System db) (held : Lock)
      → table sys.store lock.key ≡ some held
      → held.modified_index ≡ lock.modified_index
      → held.modified_id ≡ lock.modified_id
      → let after = table (release_step db true lock sys).store in
        SameTable after (table sys.store) ⊎ Expires (table sys.store) after lock
  unfolding release_step
  release_step-Expires sys held at index id = elim (laws.release_Released lock.resource sys.store) [
    | Released.removed _ owned effect ↦ inr (record {
      held = held;
      at = at;
      index = index;
      id = id;
      owner = ground (arith, eq_iff held.owner lock.owner, owned, at);
      removed = effect;
    })
    | Released.not_owner _ _ _ _ unchanged ↦ inl unchanged
    | Released.failed _ _ _ unchanged ↦ inl unchanged
  ]

  -- Over any LockDB that keeps its contract, an expiry with nothing between its steps returns
  -- without a panic, and leaves the table as it was, or without one key: the lock's, which the
  -- table held with the same index, id and owner as the lock that the expiry was started for.
  pub check_expiration-Expires :
      (sys : System db)
      → Returns
          (λ sys'.
            SameTable (table sys'.store) (table sys.store)
            ⊎ Expires (table sys.store) (table sys'.store) lock)
          (check_expiration db lock sys)
  unfolding check_expiration
  check_expiration-Expires sys = go (fetch_step db lock sys) (fetch_step-decides sys)
    where
      go :
          (d : Outcome (Bool × System db))
          → Returns
              (λ d.
                SameTable (table d.1.store) (table sys.store)
                × (d.0 ≡ true
                    → (held : Lock) × (table sys.store lock.key ≡ some held)
                      × (held.modified_index ≡ lock.modified_index)
                      × (held.modified_id ≡ lock.modified_id)))
              d
          → Returns
              (λ sys'.
                SameTable (table sys'.store) (table sys.store)
                ⊎ Expires (table sys.store) (table sys'.store) lock)
              (finish db lock d)
      go (returned (false, sys')) (same, _) = inl same
      go (returned (true, sys')) (same, u) =
          let (held, at, index, id) = u refl in
          elim (release_step-Expires sys' held (same lock.key ∙ at) index id) [
            | inl x ↦ inl (λ k. x k ∙ same k)
            | inr x ↦ inr (record {
              held = x.held;
              at = sym (same lock.key) ∙ x.at;
              index = x.index;
              id = x.id;
              owner = x.owner;
              removed = λ k. x.removed k ∙ ap (λ o. if lock.key == k then none else o) (same k);
            })
          ]
      go panicked h = absurd h

  -- Over any LockDB that keeps its contract, an expiry with nothing between its steps frees its
  -- key, if the table holds the lock with the same index and id, and neither the fetch nor the
  -- release that it makes returns an error.
  pub check_expiration_frees :
      (sys : System db) (held : Lock)
      → table sys.store lock.key ≡ some held
      → held.modified_index ≡ lock.modified_index
      → held.modified_id ≡ lock.modified_id
      → (db.fetch lock.key sys.store).1 ≡ none
      → (db.release lock.resource (db.fetch lock.key sys.store).2).0 ≡ none
      → Returns (λ sys'. table sys'.store lock.key ≡ none) (check_expiration db lock sys)
  unfolding check_expiration
  check_expiration_frees sys held at index id fetched released =
      elim (laws.fetch_Fetched lock.key sys.store) [
        | Fetched.found l a b there _ kept ↦
            elim (laws.release_Released lock.resource (db.fetch lock.key sys.store).2) [
              | Released.removed _ _ effect ↦
                  rw (a, b, fetch_step)
                    (rw (unchanged l there) (ground (arith, effect lock.key, eq_refl lock.key)))
              | Released.not_owner _ e _ _ _ ↦ absurd (cc)
              | Released.failed _ e _ _ ↦ absurd (cc)
            ]
        | Fetched.missing e _ _ ↦ absurd (cc)
        | Fetched.failed x e _ _ ↦ absurd (cc)
      ]
    where
      unchanged : (l : Lock) → table sys.store lock.key ≡ some l → is_unchanged l lock ≡ true
      unchanged l there = let e : l ≡ held = (cc) in rw e (is_unchanged_eq held lock index id)
