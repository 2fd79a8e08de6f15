-- ===== src/Metrics.antt =====
-- metrics/metrics.go: what the notifier sends at a tick. The metric client is outside this repository;
-- its errors are only logged, so a tick is the list of what it is asked to send.

use locket.Prelude.{
  ℕ, String, ◌≡◌, ◌⊎◌, inl, inr, Option, none, some, List, [], ◌∷◌, Result-cases, arith, length,
}
use locket.Models.{Error, lock_type, presence_type}
use locket.Sql.{SqlHelper, IsSqlHelper}
use locket.Db.{LockDb, sql_db, count}
use locket.Db.Refinement.Listing.{listed}

abbrev pub active_locks : String
active_locks = "ActiveLocks"

abbrev pub active_presences : String
active_presences = "ActivePresences"

-- The second count, and what is sent if it goes through.
tick_presences : ℕ → (db : LockDb) → db.Store → List (String × ℕ) × db.Store
tick_presences locks db s =
    let (presences, e, s') = db.count presence_type s in
    (elim e [ some _ ↦ [] | none ↦ (active_locks, locks) ∷ (active_presences, presences) ∷ [] ], s')

tick_counts : ℕ → Option Error → (db : LockDb) → db.Store → List (String × ℕ) × db.Store
unfolding tick_presences
tick_counts locks (some e) db s = ([], s)
tick_counts locks none db s = tick_presences locks db s

unfoldable pub tick : (db : LockDb) → db.Store → List (String × ℕ) × db.Store
unfolding tick_counts
tick db s = let (locks, e, s') = db.count lock_type s in tick_counts locks e db s'

-- Over SQLDB on a SQL database that keeps its laws, a tick sends nothing, or both metrics: ActiveLocks
-- with the number of rows of type lock that have an owner, then ActivePresences with that of presences.
pub tick_exact :
    (sql : SqlHelper) (laws : IsSqlHelper sql) (s : sql.Store)
    → ((tick (sql_db sql) s).0 ≡ [])
      ⊎ ((tick (sql_db sql) s).0
          ≡ (active_locks, length (listed lock_type (laws.rows s)))
            ∷ (active_presences, length (listed presence_type (laws.rows s)))
            ∷ [])
unfolding tick count
tick_exact sql laws s = elim (Result-cases (sql.count "" (some lock_type) s).0) [
  | inl (n, x) ↦ elim (Result-cases (sql.count "" (some presence_type) s₁).0) [
    | inl (m, y) ↦ inr (
        ground (
          arith,
          x,
          y,
          laws.count_exact "" (some lock_type) s n,
          laws.count_exact "" (some presence_type) s₁ m,
          laws.rows-count "" (some lock_type) s,
        ))
    | inr (e, y) ↦ inl (ground (arith, x, y))
  ]
  | inr (e, x) ↦ inl (ground (arith, x))
]
  where
    s₁ : sql.Store
    s₁ = (sql.count "" (some lock_type) s).1
