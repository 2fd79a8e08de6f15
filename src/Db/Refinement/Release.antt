-- ===== src/Db/Refinement/Release.antt =====
-- `Release` of db/lock_db.go.
use mathlib.Core.Option
use locket.Prelude.{
  String, ◌≡◌, refl, true, false, none, some, ◌==◌, if◌then◌else◌, ◌⊎◌, inl, inr, Result, ok, err,
  arith, eq_iff, Result-cases, Bool-cases, ap, error_of, ◌∙◌,
}
use locket.Models.{Error, Resource, lock_collision}
use locket.Sql.{SqlHelper, IsSqlHelper, is_foreign, Transacted, committed, rolled_back, refused}
use locket.Db.{Lock, lock_of_row, release, release_tx, fetch_lock}
use locket.Db.Contract.{Table, owned_by, Released}
use locket.Db.Refinement.Table

module _ (sql : SqlHelper) (laws : IsSqlHelper sql) where
  open sql use {Store, one}
  open laws use {rows}

  abbrev table : Store → Table
  table = Table.table sql laws

  release_tx_ok :
      (r : Resource) (s : Store)
      → (release_tx sql r (tt, s)).0 ≡ ok tt
      → (owned_by (table s r.key) r.owner ≡ true)
        × ((k : String)
            → table (release_tx sql r (tt, s)).1.1 k ≡ (if r.key == k then none else table s k))
  unfolding release_tx fetch_lock Table.table
  release_tx_ok r s h = elim (Result-cases (one r.key s).0) [
    | inl (a, x) ↦ (
      ground (arith, x, h, laws.one_found r.key s a),
      λ k.
          ground (arith, x, h, laws.find_row-delete r.key (one r.key s).1 k, laws.rows-one r.key s),
    )
    | inr (e, x) ↦ absurd (ground (arith, x, h))
  ]

  release_tx_err :
      (r : Resource) (s : Store) (e : Error)
      → (release_tx sql r (tt, s)).0 ≡ err e
      → ((e ≡ lock_collision)
          × ((l : Lock) × (table s r.key ≡ some l) × ((l.owner == r.owner) ≡ false)))
        ⊎ (is_foreign e ≡ true)
  unfolding release_tx fetch_lock Table.table
  release_tx_err r s e h = elim (Result-cases (one r.key s).0) [
    | inl (a, x) ↦ elim (Bool-cases (a.owner == r.owner)) [
      | inl same ↦ inr (ground (arith, x, h, laws.delete_foreign r.key (one r.key s).1 e))
      | inr other ↦ inl (
        ground (arith, x, h),
        (
          lock_of_row (record { path = r.key; attributes = a }),
          ground (arith, laws.one_found r.key s a),
          other,
        ),
      )
    ]
    | inr (e', x) ↦ ground (arith, x, h, laws.one_foreign r.key s e')
  ]

  -- Over a SQL database that keeps its laws, `Release` removes the key, which the owner given held,
  -- and nothing else; or it returns lock-collision, where the table holds the key for another owner, or
  -- an error of the database; then the table is as it was.
  pub release_lem :
      (r : Resource) (s : Store)
      → let (e, s') = release sql r s in Released (table s) r e (table s')
  unfolding release
  release_lem r s = go (laws.transact_Transacted (release_tx sql r) tt s)
    where
      t : Result Error (Unit {0}) × (Unit {0} × Store)
      t = sql.transact (release_tx sql r) (tt, s)

      kept_table : rows t.1.1 ≡ rows s → (k : String) → table t.1.1 k ≡ table s k
      kept_table h k = Table.table-rows sql laws t.1.1 s k h

      go :
          Transacted rows (release_tx sql r) tt s t.0 t.1.0 t.1.1
          → Released (table s) r (Option.map sql.convert_sql_error (error_of t.0)) (table t.1.1)
      go (committed c₀ s₀ _ same run res cap kept) =
          let (owned, effect) = release_tx_ok r s₀ run in
          Released.removed (rw res) (rw (← Table.table-rows sql laws s₀ s r.key same) owned) (λ k.
            Table.table-rows sql laws t.1.1 (release_tx sql r (c₀, s₀)).1.1 k kept
            ∙ effect k
            ∙ ap (λ x. if r.key == k then none else x) (Table.table-rows sql laws s₀ s k same))
      go (rolled_back c₀ s₀ e _ same run res kept) = elim (release_tx_err r s₀ e run) [
        | inl (x, (l, at, ne)) ↦
            Released.not_owner l (rw (res, x) (ap some (laws.convert_own lock_collision refl)))
              (rw (← Table.table-rows sql laws s₀ s r.key same) at)
              (λ p. ground (arith, eq_iff l.owner r.owner)) (kept_table kept)
        | inr x ↦
            Released.failed (sql.convert_sql_error e) (rw res) (laws.convert_foreign e x)
              (kept_table kept)
      ]
      go (refused e f res kept) =
          Released.failed (sql.convert_sql_error e) (rw res) (laws.convert_foreign e f)
            (kept_table kept)
