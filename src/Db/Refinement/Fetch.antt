-- ===== src/Db/Refinement/Fetch.antt =====
-- `Fetch` of db/lock_db.go.

use locket.Prelude.{
  String, ◌≡◌, true, false, Option, none, some, ◌==◌, ◌⊎◌, inl, inr, Result, ok, err, arith, eq_iff,
  Result-cases, error_of, ◌∙◌,
}
use locket.Models.{Error, resource_not_found}
use locket.Sql.{SqlHelper, IsSqlHelper, is_foreign, Transacted, committed, rolled_back, refused}
use locket.Db.{Lock, lock_of_row, fetch, fetch_tx, fetch_result, fetch_lock}
use locket.Db.Contract.{Table, is_free, Fetched}
use locket.Db.Refinement.Table.{is_sql_resource_not_found_sound}
use locket.Db.Refinement.Table

module _ (sql : SqlHelper) (laws : IsSqlHelper sql) where
  open sql use {Store, one}
  open laws use {rows}

  abbrev table : Store → Table
  table = Table.table sql laws

  fetch_tx_ok :
      (k : String) (old : Option Lock) (s : Store)
      → (fetch_tx sql k (old, s)).0 ≡ ok tt
      → (l : Lock) × ((fetch_tx sql k (old, s)).1.0 ≡ some l)
        × (table s k ≡ some l)
        × ((l.owner == "") ≡ false)
        × (rows (fetch_tx sql k (old, s)).1.1 ≡ rows s)
  unfolding fetch_tx fetch_lock fetch_result Table.table
  fetch_tx_ok k old s h = elim (Result-cases (one k s).0) [
    | inl (a, x) ↦ (
      lock_of_row (record { path = k; attributes = a }),
      ground (arith, x, h),
      ground (arith, laws.one_found k s a),
      ground (arith, x, h),
      ground (arith, x, h, laws.rows-one k s),
    )
    | inr (e, x) ↦ absurd (ground (arith, x, h))
  ]

  fetch_tx_err :
      (k : String) (old : Option Lock) (s : Store) (e : Error)
      → (fetch_tx sql k (old, s)).0 ≡ err e
      → ((e ≡ resource_not_found) × (is_free (table s k) "" ≡ true)) ⊎ (is_foreign e ≡ true)
  unfolding fetch_tx fetch_lock fetch_result Table.table
  fetch_tx_err k old s e h = elim (Result-cases (one k s).0) [
    | inl (a, x) ↦ ground (arith, x, h, laws.one_found k s a)
    | inr (e', x) ↦ ground (
      arith,
      x,
      h,
      laws.one_foreign k s e',
      laws.one_missing k s e',
      laws.convert_foreign e',
      is_sql_resource_not_found_sound (sql.convert_sql_error e'),
    )
  ]

  -- Over a SQL database that keeps its laws, `Fetch` changes no lock. It returns the lock of the table,
  -- which has an owner; or resource-not-found, where the table holds none with an owner; or an error of
  -- the database.
  pub fetch_lem :
      (k : String) (s : Store)
      → let (l, e, s') = fetch sql k s in Fetched (table s) k l e (table s')
  unfolding fetch
  fetch_lem k s = go (laws.transact_Transacted (fetch_tx sql k) none s)
    where
      t : Result Error (Unit {0}) × (Option Lock × Store)
      t = sql.transact (fetch_tx sql k) (none, s)

      kept_table : rows t.1.1 ≡ rows s → (j : String) → table t.1.1 j ≡ table s j
      kept_table h j = Table.table-rows sql laws t.1.1 s j h

      go :
          Transacted rows (fetch_tx sql k) none s t.0 t.1.0 t.1.1
          → Fetched (table s) k t.1.0 (error_of t.0) (table t.1.1)
      go (committed c₀ s₀ _ same run res cap kept) =
          let (l, captured, at, owner, reads) = fetch_tx_ok k c₀ s₀ run in
          Fetched.found l (cap ∙ captured) (rw res)
            (rw (← Table.table-rows sql laws s₀ s k same) at)
            (λ p. ground (arith, eq_iff l.owner "")) (kept_table (kept ∙ reads ∙ same))
      go (rolled_back c₀ s₀ e _ same run res kept) = elim (fetch_tx_err k c₀ s₀ e run) [
        | inl (x, free) ↦
            Fetched.missing (rw (res, x)) (rw (← Table.table-rows sql laws s₀ s k same) free)
              (kept_table kept)
        | inr x ↦ Fetched.failed e (rw res) x (kept_table kept)
      ]
      go (refused e f res kept) = Fetched.failed e (rw res) f (kept_table kept)
