-- ===== src/Consul/Lock/History.antt =====
-- What a runner of a consul lock has done, whatever happened.
use locket.Prelude.{
  ◌+◌, ◌≡◌, Bool, true, false, not, Option, none, some, List, [], ◌∷◌, if◌then◌else◌, arith, subst,
}
use locket.Consul.Lock.{
  Lock, Metric, lock_uptime, lock_held, Event, signal, session_failed, acquire_returned,
  reemit_fired, retry_fired, RunError, lock_lost, Progress, running, exited, panicked, step,
  is_enabled, Reach, start, next,
}

-- The last value that was sent of the metric LockHeld.
abbrev pub last_held : List Metric → Bool
last_held [] = false
last_held (lock_held b ∷ emitted) = b
last_held (lock_uptime n ∷ emitted) = last_held emitted

-- The runner has `ready` open while it does not hold the lock. Then exactly one attempt is under way
-- or the timer for the next is armed; once it holds the lock, neither.
pub record IsSound (l : Lock) : Type 0 where
  pub closes_once : l.ready_closes ≡ (if l.ready_open then 0 else 1)
  pub one_attempt : l.acquiring + (if l.retry_armed then 1 else 0) ≡ (if l.ready_open then 1 else 0)
  pub reemits : l.reemit_armed ≡ not l.ready_open
  pub metric : last_held l.emitted ≡ not l.ready_open
  pub session_kept : l.destroys ≡ 0

-- At the exit: the session is destroyed, the last metric says that the lock is not held, and an error
-- is returned only if the lock was held.
pub record IsOver (l : Lock) (e : Option RunError) : Type 0 where
  pub closes_once : l.ready_closes ≡ (if l.ready_open then 0 else 1)
  pub metric : last_held l.emitted ≡ false
  pub session_gone : (l.destroys ≡ 0) → ⊥
  pub lost_after_held : e ≡ some lock_lost → l.ready_closes ≡ 1

abbrev pub IsSoundProgress : Progress → Type 0
IsSoundProgress (running l) = IsSound l
IsSoundProgress (exited l e) = IsOver l e
IsSoundProgress panicked = ⊥

step-IsSound :
    (event : Event) (l : Lock)
    → is_enabled event l ≡ true
    → IsSound l
    → IsSoundProgress (step event l)
unfolding step
step-IsSound signal l h v = ground arith
step-IsSound (session_failed e) l h v = ground arith
step-IsSound (acquire_returned (some e) at now) l h v = ground arith
step-IsSound (acquire_returned none at now) l h v = ground arith
step-IsSound (reemit_fired now) l h v = ground arith
step-IsSound (retry_fired (some e)) l h v = ground arith
step-IsSound (retry_fired none) l h v = ground arith

-- Whatever the runner of a consul lock receives, in any order, it does not panic. While it runs, it has
-- closed `ready` once if it holds the lock and never if not; exactly one attempt to acquire the lock is
-- under way or waits for its timer if it does not hold the lock, and none if it does; and the metric
-- LockHeld that it sent last says whether it holds the lock. Once it has returned, its session is
-- destroyed, the last LockHeld is 0, and an error means that it had held the lock.
pub Reach-IsSoundProgress : {p : Progress} → Reach p → IsSoundProgress p
Reach-IsSoundProgress start = ground arith
Reach-IsSoundProgress (next {l} event r h e) =
    subst IsSoundProgress e (step-IsSound event l h (Reach-IsSoundProgress r))
