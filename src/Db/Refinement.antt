-- ===== src/Db/Refinement.antt =====
-- SQLDB implements the contract of the interface LockDB, over any SQL database that keeps its laws.
mod Table
mod Write
pub mod Lock
pub mod Release
pub mod Fetch
pub mod Listing
use locket.Sql.{SqlHelper, IsSqlHelper}
use locket.Db.{sql_db}
use locket.Db.Contract.{IsLockDb}
unfoldable pub use Table.{table}

-- Over a database that keeps its laws, SQLDB is a LockDB: `Lock`, `Release` and `Fetch` have the
-- effects and the results of the contract, also when a statement or the transaction fails.
unfoldable pub sql_db-IsLockDb : (sql : SqlHelper) → IsSqlHelper sql → IsLockDb (sql_db sql)
sql_db-IsLockDb sql laws = record {
  table = table sql laws;
  lock_Locked = Lock.lock_lem sql laws;
  release_Released = Release.release_lem sql laws;
  fetch_Fetched = Fetch.fetch_lem sql laws;
  fetch_all_keeps = λ type s k. Listing.table-fetch_all sql laws type s k;
}
