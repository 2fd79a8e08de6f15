-- ===== src/Runner.antt =====
-- lock/lock.go: the client that keeps a lock or a presence. The answers of the service are inputs: an
-- error, or none. The channel `ready` is a count of its closes, since a second close panics.
pub mod History
use locket.Prelude.{
  ℕ, suc, ◌+◌, Bool, true, false, Option, none, some, List, [], ◌∷◌, if◌then◌else◌,
}
use locket.Models.{Error}

pub record LockRunner : Type 0 where
  pub exit_on_lost_lock : Bool
  pub acquired : Bool
  pub is_ready : Bool
  pub ready_closes : ℕ
  pub locks_sent : ℕ
  pub releases_sent : ℕ

-- A case of the loop's `select`, with the service's answer to the request that it sends.
pub data Event : Type 0 where
  signal : Option Error → Event
  retry : Option Error → Event

pub data Progress : Type 0 where
  running : LockRunner → Progress
  exited : LockRunner → Option Error → Progress

abbrev pub new_lock_runner : LockRunner
new_lock_runner = record {
  exit_on_lost_lock = true;
  acquired = false;
  is_ready = false;
  ready_closes = 0;
  locks_sent = 0;
  releases_sent = 0;
}

abbrev pub new_presence_runner : LockRunner
new_presence_runner = record new_lock_runner { exit_on_lost_lock = false }

-- The first Lock, before the loop.
unfoldable pub start : Option Error → LockRunner → LockRunner
start (some e) l = record l { locks_sent = suc l.locks_sent }
start none l = record l {
  acquired = true;
  is_ready = true;
  ready_closes = suc l.ready_closes;
  locks_sent = suc l.locks_sent;
}

-- A retry whose Lock went through, with no lock held.
reacquire : LockRunner → LockRunner
reacquire l = record l {
  acquired = true;
  is_ready = true;
  ready_closes = if l.is_ready then l.ready_closes else suc l.ready_closes;
}

after_retry : Option Error → LockRunner → Progress
unfolding reacquire
after_retry (some e) l =
    if l.acquired
    then (if l.exit_on_lost_lock
        then exited l (some e)
        else running (record l { acquired = false }))
    else running l
after_retry none l = if l.acquired then running l else running (reacquire l)

unfoldable pub step : Event → LockRunner → Progress
unfolding after_retry
step (signal _) l = exited (record l { releases_sent = suc l.releases_sent }) none
step (retry answer) l = after_retry answer (record l { locks_sent = suc l.locks_sent })

continue : (LockRunner → Progress) → Progress → Progress
continue f (running l) = f l
continue f (exited l e) = exited l e

unfoldable pub run : List Event → LockRunner → Progress
unfolding step continue
run [] l = running l
run (event ∷ events) l = continue (run events) (step event l)
