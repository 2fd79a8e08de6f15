-- ===== src/Db.antt =====
-- db/sqldb.go and db/lock_db.go. `LockDb` is the interface LockDB, and `sql_db` is the type SQLDB over
-- the SQL helpers. A returned pointer is an `Option`; a returned error is one too, nil being `none`.
-- A Go function that a transaction runs assigns to variables of its caller: they are the first part
-- of the state that the transaction's body works on.
pub mod Contract
pub mod Refinement
pub mod Roundtrip
use mathlib.Core.Option
use locket.Prelude.{
  ℕ, String, Bool, true, false, not, ◌&&◌, Option, none, some, List, [], ◌∷◌, ◌++◌, ◌==◌,
  if◌then◌else◌, Result, ok, err, error_of, Exec, pure, raise, ◌>>=◌, ◌>>◌,
}
use locket.Prelude.Int64.{ℤ, pos, inc_int64}
use locket.Models.{
  Error, Resource, lock_collision, resource_not_found, sql_resource_not_found, get_resource,
  get_type_code,
}
use locket.Sql.{SqlHelper, Row, Attributes}

pub record Lock : Type 0 where
  pub resource : Resource
  pub open resource use *
  pub ttl_in_seconds : ℤ
  pub modified_index : ℤ
  pub modified_id : String

pub record LockDb : Type 1 where
  pub Store : Type 0
  pub lock : Resource → ℤ → Store → Option Lock × Option Error × Store
  pub release : Resource → Store → Option Error × Store
  pub fetch : String → Store → Option Lock × Option Error × Store
  pub fetch_all : String → Store → List Lock × Option Error × Store
  pub count : String → Store → ℕ × Option Error × Store

abbrev pub is_sql_resource_not_found : Error → Bool
is_sql_resource_not_found sql_resource_not_found = true
is_sql_resource_not_found _ = false

-- A statement of the transaction, and the assignment to the captured variable.
abbrev in_tx : {C S A : Type 0} → Exec Error S A → Exec Error (C × S) A
in_tx m (c, s) = ((m s).0, (c, (m s).1))

abbrev assign : {C S : Type 0} → C → Exec Error (C × S) (Unit {0})
assign c (_, s) = (ok tt, (c, s))

-- Runs an action and goes on with its outcome, a failure too.
abbrev attempt : {S A : Type 0} → Exec Error S A → Exec Error S (Result Error A)
attempt m s = (ok (m s).0, (m s).1)

-- The four values that fetchLock returns beside the error.
pub record Fetched : Type 0 where
  pub resource : Resource
  pub index : ℤ
  pub id : String
  pub ttl : ℤ

abbrev pub fetched_of : String → Attributes → Fetched
fetched_of key a = record {
  resource = record {
    key = key;
    owner = a.owner;
    value = a.value;
    type = a.type;
    type_code = get_type_code a.type;
  };
  index = a.modified_index;
  id = a.modified_id;
  ttl = a.ttl;
}

abbrev pub row_attributes : Lock → Attributes
row_attributes l = record {
  owner = l.owner;
  value = l.value;
  type = l.type;
  modified_index = l.modified_index;
  modified_id = l.modified_id;
  ttl = l.ttl_in_seconds;
}

abbrev pub lock_of_row : Row → Lock
lock_of_row r = record {
  resource = (fetched_of r.path r.attributes).resource;
  ttl_in_seconds = r.ttl;
  modified_index = r.modified_index;
  modified_id = r.modified_id;
}

-- What `Lock` knows after the fetch: whether a row has to be inserted, and the index and the id that
-- it goes on from.
pub record Claim : Type 0 where
  pub new_lock : Bool
  pub index : ℤ
  pub id : String

-- The lock that `Lock` writes.
abbrev pub claimed_lock : Resource → ℤ → Claim → String → Lock
claimed_lock resource ttl claimed modified_id = record {
  resource = get_resource resource;
  modified_index = inc_int64 claimed.index;
  modified_id = modified_id;
  ttl_in_seconds = ttl;
}

module _ (sql : SqlHelper) where
  open sql use {Store, one, convert_sql_error}

  pub fetch_lock : String → Exec Error Store Fetched
  fetch_lock key = do a ← one key; pure (fetched_of key a)

  claim : Resource → Result Error Fetched → Result Error Claim
  claim resource (err e) =
      if is_sql_resource_not_found (convert_sql_error e)
      then ok (record { new_lock = true; index = pos 0; id = "" })
      else err e
  claim resource (ok res) =
      if not (res.resource.owner == resource.owner) && not (res.resource.owner == "")
      then err lock_collision
      else ok (record { new_lock = false; index = res.index; id = res.id })

  -- The id of the row, or a new one.
  pub pick_id : Claim → Exec Error Store String
  pick_id claimed = if claimed.id == "" then sql.next_guid else pure claimed.id

  pub put : Bool → Lock → Exec Error Store (Unit {0})
  put new_lock lock =
      if new_lock
      then sql.insert (record { path = lock.key; attributes = row_attributes lock })
      else sql.update (row_attributes lock) lock.key

  write_lock : Resource → ℤ → Claim → Exec Error (Option Lock × Store) (Unit {0})
  unfolding pick_id put
  write_lock resource ttl claimed = do
    modified_id ← in_tx (pick_id claimed)
    let lock = claimed_lock resource ttl claimed modified_id
    assign (some lock)
    in_tx (put claimed.new_lock lock)

  lock_tx : Resource → ℤ → Exec Error (Option Lock × Store) (Unit {0})
  unfolding fetch_lock claim write_lock
  lock_tx resource ttl = do
    found ← attempt (in_tx (fetch_lock resource.key))
    claimed ← λ s. (claim resource found, s)
    write_lock resource ttl claimed

  unfoldable pub lock : Resource → ℤ → Store → Option Lock × Option Error × Store
  unfolding lock_tx
  lock resource ttl s =
      let (result, (lock, s')) = sql.transact (lock_tx resource ttl) (none, s) in
      (lock, Option.map convert_sql_error (error_of result), s')

  release_tx : Resource → Exec Error (Unit {0} × Store) (Unit {0})
  unfolding fetch_lock
  release_tx resource = do
    res ← in_tx (fetch_lock resource.key)
    if not (res.resource.owner == resource.owner)
        then raise lock_collision
        else in_tx (sql.delete resource.key)

  unfoldable pub release : Resource → Store → Option Error × Store
  unfolding release_tx
  release resource s =
      let (result, (_, s')) = sql.transact (release_tx resource) (tt, s) in
      (Option.map convert_sql_error (error_of result), s')

  fetch_result : Result Error Fetched → Result Error Fetched
  fetch_result (err e) =
      if is_sql_resource_not_found (convert_sql_error e)
      then err resource_not_found
      else err (convert_sql_error e)
  fetch_result (ok res) = if res.resource.owner == "" then err resource_not_found else ok res

  fetch_tx : String → Exec Error (Option Lock × Store) (Unit {0})
  unfolding fetch_lock fetch_result
  fetch_tx key = do
    found ← attempt (in_tx (fetch_lock key))
    res ← λ s. (fetch_result found, s)
    assign (
        some (record {
          resource = res.resource;
          modified_index = res.index;
          modified_id = res.id;
          ttl_in_seconds = res.ttl;
        }))

  unfoldable pub fetch : String → Store → Option Lock × Option Error × Store
  unfolding fetch_tx
  fetch key s =
      let (result, (lock, s')) = sql.transact (fetch_tx key) (none, s) in
      (lock, error_of result, s')

-- The loop over the rows: a row that cannot be scanned and a row with no owner are passed over.
pub scan_locks : List Lock → List (Result Error Row) → List Lock
scan_locks locks [] = locks
scan_locks locks (err e ∷ items) = scan_locks locks items
scan_locks locks (ok r ∷ items) =
    scan_locks (if r.owner == "" then locks else locks ++ lock_of_row r ∷ []) items

abbrev pub type_clause : String → Option String
type_clause lock_type = if lock_type == "" then none else some lock_type

module _ (sql : SqlHelper) where
  open sql use {Store, convert_sql_error}

  fetch_all_tx : String → Exec Error (List Lock × Store) (Unit {0})
  fetch_all_tx lock_type (locks, s) =
      (do items ← in_tx (sql.all (type_clause lock_type)); assign (scan_locks locks items))
        (locks, s)

  unfoldable pub fetch_all : String → Store → List Lock × Option Error × Store
  unfolding fetch_all_tx scan_locks
  fetch_all lock_type s =
      let (result, (locks, s')) = sql.transact (fetch_all_tx lock_type) ([], s) in
      (locks, Option.map convert_sql_error (error_of result), s')

  counted : Result Error ℕ → ℕ
  counted (ok n) = n
  counted (err e) = 0

  unfoldable pub count : String → Store → ℕ × Option Error × Store
  unfolding counted
  count lock_type s =
      let (result, s') = sql.count "" (type_clause lock_type) s in
      (counted result, Option.map convert_sql_error (error_of result), s')

  abbrev pub sql_db : LockDb
  sql_db = record {
    Store = Store;
    lock = lock sql;
    release = release sql;
    fetch = fetch sql;
    fetch_all = fetch_all;
    count = count;
  }
