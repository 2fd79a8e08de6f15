-- ===== src/Expiration/Check.antt =====
-- expiration/lock_pick.go, checkExpiration: what a check does once its timer has fired. The goroutine
-- takes three steps, between which others run: it fetches and compares, it releases, and the deferred
-- function cleans up. `System` is what the goroutines share; `emitted` are the metrics, newest first.
pub mod Safety
pub mod Race
use locket.Prelude.{
  String, Bool, true, false, ◌&&◌, Option, none, some, List, ◌∷◌, ◌==◌, if◌then◌else◌, Outcome,
  returned, panicked,
}
use locket.Prelude.Int64.{eq_ℤ}
use locket.Models.{Error, lock_type, presence_type}
use locket.Db.{Lock, LockDb}
use locket.Expiration.LockPick.{LockPick, forget}

pub data Metric : Type 0 where
  locks_expired presence_expired : Metric

pub record System (db : LockDb) : Type 0 where
  pub store : db.Store
  pub pick : LockPick
  pub emitted : List Metric

-- The database has the lock that the check was started for.
unfoldable pub is_unchanged : Lock → Lock → Bool
is_unchanged fetched lock =
    eq_ℤ fetched.modified_index lock.modified_index && fetched.modified_id == lock.modified_id

unfoldable pub count_expired : Lock → List Metric → List Metric
count_expired lock emitted =
    if lock.type == lock_type
    then locks_expired ∷ emitted
    else if lock.type == presence_type
    then presence_expired ∷ emitted
    else emitted

-- The comparison; fetchedLock is read only if there was no error.
decide : Option Lock → Option Error → Lock → Outcome Bool
decide fetched (some e) lock = returned false
decide (some fetched) none lock = returned (is_unchanged fetched lock)
decide none none lock = panicked

module _ (db : LockDb) where
  -- From the timer to the comparison: whether the lock is to be released.
  after_decision : Outcome Bool → Lock → db.Store → System db → Outcome (Bool × System db)
  after_decision panicked lock s' sys = panicked
  after_decision (returned release) lock s' sys = returned (
    release,
    record sys {
      store = s';
      emitted = if release then count_expired lock sys.emitted else sys.emitted;
    },
  )

  unfoldable pub fetch_step : Lock → System db → Outcome (Bool × System db)
  unfolding after_decision decide is_unchanged
  fetch_step lock sys =
      let (fetched, e, s') = db.fetch lock.key sys.store in
      after_decision (decide fetched e lock) lock s' sys

  -- The error of Release is only logged.
  unfoldable pub release_step : Bool → Lock → System db → System db
  release_step false lock sys = sys
  release_step true lock sys = record sys { store = (db.release lock.resource sys.store).1 }

  unfoldable pub cleanup_step : Lock → System db → System db
  cleanup_step lock sys = record sys { pick = forget lock sys.pick }

  finish : Lock → Outcome (Bool × System db) → Outcome (System db)
  finish lock panicked = panicked
  finish lock (returned (release, sys)) =
      returned (cleanup_step lock (release_step release lock sys))

  -- The three steps with nothing between them.
  unfoldable pub check_expiration : Lock → System db → Outcome (System db)
  unfolding finish fetch_step release_step cleanup_step
  check_expiration lock sys = finish lock (fetch_step lock sys)
