-- ===== src/Db/Contract.antt =====
-- What the interface LockDB of db/sqldb.go promises: an abstract table that takes a key to its lock,
-- and each operation by its effect on that table and by what it returns.

use locket.Prelude.{
  String, ◌≡◌, ◌≢◌, Bool, true, false, ◌||◌, Option, none, some, ◌==◌, if◌then◌else◌, ◌⊎◌,
}
use locket.Prelude.Int64.{ℤ, pos, inc_int64}
use locket.Models.{Error, Resource, lock_collision, resource_not_found, get_resource, get_type_code}
use locket.Sql.{is_foreign}
use locket.Db.{Lock, LockDb}

abbrev pub Table : Type 0
Table = String → Option Lock

-- The lock as it is read back: the type code is not stored.
abbrev pub stored : Lock → Lock
stored l = record l { resource = record (l.resource) { type_code = get_type_code l.type } }

-- No other owner holds the key.
abbrev pub is_free : Option Lock → String → Bool
is_free none owner = true
is_free (some l) owner = l.owner == owner || l.owner == ""

abbrev pub index_of : Option Lock → ℤ
index_of none = pos 0
index_of (some l) = l.modified_index

abbrev pub id_of : Option Lock → String
id_of none = ""
id_of (some l) = l.modified_id

-- The lock that a grant to `r` writes, over what the table holds.
pub record IsGrant (r : Resource) (ttl : ℤ) (old : Option Lock) (l : Lock) : Type 0 where
  pub resource : l.resource ≡ get_resource r
  pub ttl_in_seconds : l.ttl_in_seconds ≡ ttl
  pub modified_index : l.modified_index ≡ inc_int64 (index_of old)
  pub id_nonempty : l.modified_id ≢ ""
  pub id_kept : (id_of old ≡ "") ⊎ (l.modified_id ≡ id_of old)

abbrev pub SameTable : Table → Table → Type 0
SameTable t u = (k : String) → t k ≡ u k

pub data Locked (before : Table) (r : Resource) (ttl : ℤ) (lock : Option Lock) (e : Option Error)
    (after : Table) : Type 0 where
  granted :
      (l : Lock)
      → lock ≡ some l
      → e ≡ none
      → is_free (before r.key) r.owner ≡ true
      → IsGrant r ttl (before r.key) l
      → ((k : String) → after k ≡ (if r.key == k then some (stored l) else before k))
      → Locked before r ttl lock e after
  collided :
      e ≡ some lock_collision
      → is_free (before r.key) r.owner ≡ false
      → SameTable after before
      → Locked before r ttl lock e after
  failed :
      (x : Error)
      → e ≡ some x
      → is_foreign x ≡ true
      → SameTable after before
      → Locked before r ttl lock e after

-- The owner of what the table holds.
abbrev pub owned_by : Option Lock → String → Bool
owned_by none owner = false
owned_by (some l) owner = l.owner == owner

pub data Released (before : Table) (r : Resource) (e : Option Error) (after : Table) : Type 0 where
  removed :
      e ≡ none
      → owned_by (before r.key) r.owner ≡ true
      → ((k : String) → after k ≡ (if r.key == k then none else before k))
      → Released before r e after
  not_owner :
      (l : Lock)
      → e ≡ some lock_collision
      → before r.key ≡ some l
      → l.owner ≢ r.owner
      → SameTable after before
      → Released before r e after
  failed :
      (x : Error)
      → e ≡ some x
      → is_foreign x ≡ true
      → SameTable after before
      → Released before r e after

pub data Fetched (before : Table) (k : String) (lock : Option Lock) (e : Option Error)
    (after : Table) : Type 0 where
  found :
      (l : Lock)
      → lock ≡ some l
      → e ≡ none
      → before k ≡ some l
      → l.owner ≢ ""
      → SameTable after before
      → Fetched before k lock e after
  missing :
      e ≡ some resource_not_found
      → is_free (before k) "" ≡ true
      → SameTable after before
      → Fetched before k lock e after
  failed :
      (x : Error)
      → e ≡ some x
      → is_foreign x ≡ true
      → SameTable after before
      → Fetched before k lock e after

pub record IsLockDb (db : LockDb) : Type 1 where
  pub table : db.Store → Table
  pub lock_Locked :
      (r : Resource) (ttl : ℤ) (s : db.Store)
      → let (l, e, s') = db.lock r ttl s in Locked (table s) r ttl l e (table s')
  pub release_Released :
      (r : Resource) (s : db.Store)
      → let (e, s') = db.release r s in Released (table s) r e (table s')
  pub fetch_Fetched :
      (k : String) (s : db.Store)
      → let (l, e, s') = db.fetch k s in Fetched (table s) k l e (table s')
  pub fetch_all_keeps :
      (type : String) (s : db.Store) → SameTable (table (db.fetch_all type s).2) (table s)
