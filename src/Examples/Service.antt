-- ===== src/Examples/Service.antt =====
-- The service and its expirations at work, over the database in memory.
use locket.Prelude.{
  String, ℕ, ◌≡◌, ◌≢◌, ◌⊎◌, ◌↔◌, ◌*◌, ◌≤◌, ◌<◌, refl, inr, true, false, none, some, List, [], ◌∷◌,
  ◌++◌, arith, eq_iff, length, Returns, returned,
}
use locket.Prelude.Int64.{pos, negsuc}
use locket.Models.{
  LockRequest, FetchRequest, FetchAllRequest, unrecoverable_error, unknown_code, lock_type,
  presence_type, get_resource, get_type_code,
}
use locket.Sql.Memory.{
  memory, memory-IsSqlHelper, one, insert, update, delete, transact, convert, next_guid,
}
use locket.Db.{Lock, LockDb, sql_db}
use locket.Db
use locket.Db.Contract.{IsLockDb, SameTable}
use locket.Db.Refinement.{table, sql_db-IsLockDb}
use locket.Db.Refinement.Listing.{listed}
use locket.Expiration.LockPick.{
  LockPick, check_key_from_lock, new_lock_pick, register_ttl, ttl_duration,
}
use locket.Expiration.LockPick.Registry.{
  IsWellFormed, new_lock_pick-IsWellFormed, register_ttl-IsWellFormed,
}
use locket.Expiration.Check.{
  System, is_unchanged, check_expiration, release_step, fetch_step, count_expired, locks_expired,
}
use locket.Expiration.Check.Safety.{Expires, check_expiration-Expires, check_expiration_frees}
use locket.Expiration.Check.Race.{Renewed, Lost, expiry_loses_renewal}
use locket.Expiration.Burglar
use locket.Expiration.Burglar.Run.{Ended, learned, store_left, run-Ended}
use locket.Expiration.Ttl.{ttl_duration_cases}
use locket.Handlers.{
  Server, lock, release, fetch, fetch_all, Request, lock_request, release_request, fetch_request,
  validate_type,
}
use locket.Handlers.Validation.{IsConsistent, validate_type_iff}
use locket.Handlers.Locking.{LockAnswer, lock_answers}
use locket.Handlers.Exiting.{IfAnswered, requests_exit}
use locket.Handlers.Exclusion.{serve, Holds, serve-Holds}
use locket.Metrics
use locket.Metrics.{active_locks, active_presences, tick_exact}
use locket.Examples.Storage.{held, alice, bob, cell}

abbrev pub db : LockDb
db = sql_db memory

abbrev pub laws : IsLockDb db
laws = sql_db-IsLockDb memory memory-IsSqlHelper

abbrev pub server : Server db
server = record {
  store = held;
  pick = new_lock_pick;
  receiver_waits = true;
  exit_requested = false;
}

abbrev system : System db
system = record { store = held; pick = new_lock_pick; emitted = [] }

abbrev pub bob_locks : LockRequest
bob_locks = record { resource = some bob; ttl_in_seconds = pos 5 }

abbrev requests : List Request
requests =
    lock_request bob_locks
    ∷ fetch_request (record { key = "cell" })
    ∷ release_request (record { resource = some bob })
    ∷ []

pub bob_not_alice : ◌≢◌ {A = String} "bob" "alice"
bob_not_alice = ground (arith, eq_iff "bob" "alice")

pub alice_named : ◌≢◌ {A = String} "alice" ""
alice_named = ground (arith, eq_iff "alice" "")

pub server-Holds : Holds laws "cell" "alice" alice_named server
unfolding sql_db-IsLockDb table memory-IsSqlHelper
server-Holds = record { owned = refl; pick = new_lock_pick-IsWellFormed }

serve-Holds_example : Returns (Holds laws "cell" "alice" alice_named) (serve requests server)
serve-Holds_example =
    serve-Holds laws "cell" "alice" alice_named requests server server-Holds
      (tt, (tt, ((bob, refl, inr bob_not_alice), tt)))

lock_answers_example : Returns (LockAnswer laws bob_locks server) (lock bob_locks server)
lock_answers_example = lock_answers laws bob_locks server new_lock_pick-IsWellFormed

validate_type_iff_example :
    (validate_type "lock" unknown_code ≡ none) ↔ IsConsistent "lock" unknown_code
validate_type_iff_example = validate_type_iff "lock" unknown_code

-- A database that is gone.
abbrev pub broken : LockDb
broken = record {
  Store = Unit;
  lock = λ r ttl s. (none, some unrecoverable_error, s);
  release = λ r s. (some unrecoverable_error, s);
  fetch = λ k s. (none, some unrecoverable_error, s);
  fetch_all = λ type s. ([], some unrecoverable_error, s);
  count = λ type s. (0, some unrecoverable_error, s);
}

abbrev pub before_exit : Server broken
before_exit = record {
  store = tt;
  pick = new_lock_pick;
  receiver_waits = true;
  exit_requested = false;
}

abbrev fetches_cell : FetchRequest
fetches_cell = record { key = "cell" }

abbrev lists_locks : FetchAllRequest
lists_locks = record { type = "lock"; type_code = unknown_code }

requests_exit_example :
    IfAnswered before_exit (lock bob_locks before_exit)
    × IfAnswered before_exit (release (record { resource = some bob }) before_exit)
    × IfAnswered before_exit (fetch fetches_cell before_exit)
    × IfAnswered before_exit (fetch_all lists_locks before_exit)
requests_exit_example =
    requests_exit before_exit bob_locks (record { resource = some bob }) fetches_cell lists_locks

check_expiration-Expires_example :
    Returns
      (λ sys'.
        SameTable (laws.table sys'.store) (laws.table held)
        ⊎ Expires (laws.table held) (laws.table sys'.store) cell)
      (check_expiration db cell system)
check_expiration-Expires_example = check_expiration-Expires db laws cell system

check_expiration_frees_example :
    Returns (λ sys'. laws.table sys'.store "cell" ≡ none) (check_expiration db cell system)
unfolding sql_db-IsLockDb table memory-IsSqlHelper is_unchanged Db.fetch Db.release one delete
    transact convert get_type_code
check_expiration_frees_example =
    check_expiration_frees db laws cell system cell refl refl refl refl refl

renewed_store : (Db.lock memory alice (pos 10) held).1 ≡ none
unfolding Db.lock one insert update transact convert next_guid get_resource get_type_code
renewed_store = refl

expiry_decides :
    fetch_step db cell system ≡ returned (true, record system { emitted = locks_expired ∷ [] })
unfolding fetch_step Db.fetch one transact convert get_type_code count_expired is_unchanged
expiry_decides = refl

expiry_loses_renewal_example :
    let renewed = Db.lock memory alice (pos 10) held in
    let before =
      let s : System db = record {
        store = renewed.2;
        pick = new_lock_pick;
        emitted = locks_expired ∷ [];
      } in
      s in
    ((l : Lock) × Renewed db laws cell l renewed)
    × Lost "cell"
        (laws.table renewed.2)
        (Db.release memory cell.resource renewed.2).0
        (laws.table (release_step db true cell before).store)
expiry_loses_renewal_example =
    expiry_loses_renewal db laws cell alice (pos 10) system
      (record system { emitted = locks_expired ∷ [] }) expiry_decides refl refl renewed_store

-- The registry with an expiry of `cell`, and the lock renewed.
abbrev pub busy : LockPick
busy = record {
  lock_ttls = (check_key_from_lock cell, record { channel = 0; index = pos 1 }) ∷ [];
  made = 1;
  closed = [];
  checks = (record { lock = cell; close_chan = 0 }) ∷ [];
}

abbrev pub renewal : Lock
renewal = record cell { modified_index = pos 2 }

pub busy-IsWellFormed : IsWellFormed busy
unfolding register_ttl
busy-IsWellFormed = register_ttl-IsWellFormed cell new_lock_pick new_lock_pick-IsWellFormed

register_ttl-IsWellFormed_example : Returns IsWellFormed (register_ttl renewal busy)
register_ttl-IsWellFormed_example = register_ttl-IsWellFormed renewal busy busy-IsWellFormed

abbrev burglar_events : List Burglar.Event
burglar_events = Burglar.ticked ∷ Burglar.signalled ∷ Burglar.ticked ∷ []

run-Ended_example :
    Returns
      (Ended laws
        (learned db burglar_events (db.fetch_all "" held).2 ((db.fetch_all "" held).0 ++ []))
        false
        (store_left db burglar_events (db.fetch_all "" held).2)
        held)
      (Burglar.run burglar_events system)
    × (Burglar.run burglar_events system
        ≡ Burglar.run (Burglar.ticked ∷ Burglar.signalled ∷ []) system)
run-Ended_example = run-Ended laws burglar_events system new_lock_pick-IsWellFormed

tick_exact_example :
    ((Metrics.tick db held).0 ≡ [])
    ⊎ ((Metrics.tick db held).0
        ≡ (active_locks, length (listed lock_type held.rows))
          ∷ (active_presences, length (listed presence_type held.rows))
          ∷ [])
unfolding memory-IsSqlHelper
tick_exact_example = tick_exact memory memory-IsSqlHelper held

abbrev three_centuries : Lock
three_centuries = record cell { ttl_in_seconds = pos 9_500_000_000 }

ttl_duration_cases_example :
    ((9_500_000_000 ≤ 9223372036)
      × (ttl_duration three_centuries ≡ pos (9_500_000_000 * 1_000_000_000)))
    ⊎ ((9223372036 < 9_500_000_000) × ((m : ℕ) × (ttl_duration three_centuries ≡ negsuc m)))
ttl_duration_cases_example = ttl_duration_cases three_centuries 9_500_000_000 refl (omega arith)
