-- ===== src/Db/Refinement/Table.antt =====
-- The abstract table of SQLDB: what the rows of the database say of each key.
use mathlib.Core.Option
use locket.Prelude.{String, ◌≡◌, true, Option, arith}
use locket.Models.{Error, sql_resource_not_found}
use locket.Sql.{SqlHelper, IsSqlHelper, Attributes, find_row}
use locket.Db.{Lock, lock_of_row, is_sql_resource_not_found, fetch_lock}
use locket.Db.Contract.{Table}

abbrev pub row_at : String → Option Attributes → Option Lock
row_at k = Option.map (λ a. lock_of_row (record { path = k; attributes = a }))

pub is_sql_resource_not_found_sound :
    (e : Error) → is_sql_resource_not_found e ≡ true → e ≡ sql_resource_not_found
is_sql_resource_not_found_sound e h = ground arith

module _ (sql : SqlHelper) (laws : IsSqlHelper sql) where
  open sql use {Store}
  open laws use {rows}

  unfoldable pub table : Store → Table
  table s k = row_at k (find_row k (rows s))

  pub table-rows : (s s' : Store) (k : String) → rows s ≡ rows s' → table s k ≡ table s' k
  unfolding table
  table-rows s s' k h = rw h

  pub rows-fetch_lock : (k : String) (s : Store) → rows (fetch_lock sql k s).1 ≡ rows s
  unfolding fetch_lock
  rows-fetch_lock k s = ground (arith, laws.rows-one k s)
