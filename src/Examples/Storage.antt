-- ===== src/Examples/Storage.antt =====
-- The database at work.
use locket.Prelude.{false, ◌≡◌, refl, inl, inr, none, some, [], ◌∷◌, Has, ◌↔◌}
use locket.Prelude.Int64.{pos}
use locket.Models.{
  Error, Resource, unknown_code, lock_code, get_resource, get_type_code, lock_collision,
  sql_resource_not_found,
}
use locket.Sql.{Row, is_foreign}
use locket.Sql.Memory.{
  Memory, memory, memory-IsSqlHelper, one, insert, update, delete, all, transact, convert,
  next_guid, all-ReadsAll,
}
use locket.Db.{Lock, sql_db}
use locket.Db
use locket.Db.Contract.{Locked, Released, Fetched}
use locket.Db.Refinement.{table, sql_db-IsLockDb}
use locket.Db.Refinement.Lock.{lock_lem}
use locket.Db.Refinement.Release.{release_lem}
use locket.Db.Refinement.Fetch.{fetch_lem}
use locket.Db.Refinement.Listing.{IsListed, ReadsAll, fetch_all_lists}
use locket.Db.Roundtrip.{fetch-lock}

abbrev pub empty : Memory
empty = record { rows = [] }

abbrev pub alice : Resource
alice = record { key = "cell"; owner = "alice"; value = "v"; type = ""; type_code = lock_code }

abbrev pub bob : Resource
bob = record { key = "cell"; owner = "bob"; value = "w"; type = "lock"; type_code = unknown_code }

abbrev pub cell_row : Row
cell_row = record {
  path = "cell";
  attributes = record {
    owner = "alice";
    value = "v";
    type = "lock";
    modified_index = pos 1;
    modified_id = "guid";
    ttl = pos 10;
  };
}

abbrev pub cell : Lock
cell = record {
  resource = record {
    key = "cell";
    owner = "alice";
    value = "v";
    type = "lock";
    type_code = lock_code;
  };
  ttl_in_seconds = pos 10;
  modified_index = pos 1;
  modified_id = "guid";
}

abbrev pub held : Memory
held = record { rows = cell_row ∷ [] }

-- The first lock is inserted, a renewal counts the index up, another owner collides.
first_lock : Db.lock memory alice (pos 10) empty ≡ (some cell, none, held)
unfolding Db.lock one insert update transact convert next_guid get_resource get_type_code
first_lock = refl

renewal : Db.lock memory alice (pos 10) held ≡ (
  some (record cell { modified_index = pos 2 }),
  none,
  record {
    rows =
        (record cell_row { attributes = record (cell_row.attributes) { modified_index = pos 2 } })
        ∷ [];
  },
)
unfolding Db.lock one insert update transact convert next_guid get_resource get_type_code
renewal = refl

other_owner : (Db.lock memory bob (pos 10) held).1 ≡ some lock_collision
unfolding Db.lock one insert update transact convert next_guid
other_owner = refl

fetched : Db.fetch memory "cell" held ≡ (some cell, none, held)
unfolding Db.fetch one transact convert get_type_code
fetched = refl

released_twice : (Db.release memory alice empty).0 ≡ some sql_resource_not_found
unfolding Db.release one delete transact convert
released_twice = refl

lock_lem_example :
    Locked
      (table memory memory-IsSqlHelper empty)
      alice
      (pos 10)
      (Db.lock memory alice (pos 10) empty).0
      (Db.lock memory alice (pos 10) empty).1
      (table memory memory-IsSqlHelper (Db.lock memory alice (pos 10) empty).2)
lock_lem_example = lock_lem memory memory-IsSqlHelper alice (pos 10) empty

release_lem_example :
    Released
      (table memory memory-IsSqlHelper held)
      bob
      (Db.release memory bob held).0
      (table memory memory-IsSqlHelper (Db.release memory bob held).1)
release_lem_example = release_lem memory memory-IsSqlHelper bob held

fetch_lem_example :
    Fetched
      (table memory memory-IsSqlHelper held)
      "cell"
      (Db.fetch memory "cell" held).0
      (Db.fetch memory "cell" held).1
      (table memory memory-IsSqlHelper (Db.fetch memory "cell" held).2)
fetch_lem_example = fetch_lem memory memory-IsSqlHelper "cell" held

memory-ReadsAll : ReadsAll memory memory-IsSqlHelper
unfolding memory-IsSqlHelper
memory-ReadsAll type s items r h k = all-ReadsAll type s items r h k

fetch_all_lists_example :
    Has cell (Db.fetch_all memory "lock" held).0 ↔ IsListed "lock" held.rows cell
unfolding Db.fetch_all all transact convert memory-IsSqlHelper
fetch_all_lists_example =
    fetch_all_lists memory memory-IsSqlHelper "lock" held cell memory-ReadsAll refl

fetch-lock_example : (Db.fetch memory "cell" (Db.lock memory alice (pos 10) empty).2).0 ≡ some cell
unfolding Db.lock Db.fetch one insert update transact convert next_guid get_resource get_type_code
fetch-lock_example =
    fetch-lock (sql_db memory) (sql_db-IsLockDb memory memory-IsSqlHelper) alice (pos 10) empty cell
      (inr (inl refl)) refl refl refl

no_error :
    (e : Error)
    → (Db.lock memory bob (pos 5) (Db.release memory alice held).1).1 ≡ some e
    → is_foreign e ≡ false
unfolding Db.lock Db.release one insert update delete transact convert next_guid
no_error e h = cc
