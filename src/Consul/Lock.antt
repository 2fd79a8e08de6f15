-- ===== src/Consul/Lock.antt =====
-- lock.go: the runner that holds one lock of consul. What its `select` receives is an `Event`, with the
-- answer of the call that the case makes and the time on the clock. The channel `acquireErr` has room
-- for one, so a finished attempt waits there until it is received.
pub mod History
use locket.Prelude.{
  ℕ, suc, ◌-◌, Bool, true, false, Option, none, some, List, [], ◌∷◌, if◌then◌else◌, ◌≡◌, ltb,
}
use locket.Consul.Session.{SessionError}

-- What emitMetrics sends, in nanoseconds; the clock of a process does not go back.
pub data Metric : Type 0 where
  lock_uptime : ℕ → Metric
  lock_held : Bool → Metric

pub record Lock : Type 0 where
  -- `ready` is not nil, and how often it was closed
  pub ready_open : Bool
  pub ready_closes : ℕ
  -- attempts to acquire that have not been received
  pub acquiring : ℕ
  -- `c` and `reemit` are armed
  pub retry_armed : Bool
  pub reemit_armed : Bool
  pub acquired_time : ℕ
  -- the sessions made by Recreate, and the calls of Destroy on the current one
  pub recreated : ℕ
  pub destroys : ℕ
  -- newest first
  pub emitted : List Metric

pub data Event : Type 0 where
  signal : Event
  session_failed : Option SessionError → Event
  -- with the readings of the clock for lockAcquiredTime and, if it is read again, for the uptime
  acquire_returned : Option SessionError → ℕ → ℕ → Event
  reemit_fired : ℕ → Event
  retry_fired : Option SessionError → Event

pub data RunError : Type 0 where
  lock_lost : RunError

pub data Progress : Type 0 where
  running : Lock → Progress
  exited : Lock → Option RunError → Progress
  panicked : Progress

-- At the first `select`.
abbrev pub started : Lock
started = record {
  ready_open = true;
  ready_closes = 0;
  acquiring = 1;
  retry_armed = false;
  reemit_armed = false;
  acquired_time = 0;
  recreated = 0;
  destroys = 0;
  emitted = [];
}

emit_metrics : Bool → ℕ → Lock → Lock
emit_metrics acquired now l = record l {
  emitted =
      lock_held acquired ∷ lock_uptime (if acquired then now - l.acquired_time else 0) ∷ l.emitted;
}

-- A return from `Run`, with the deferred Destroy.
return : Option RunError → Lock → Progress
return e l = exited (record l { destroys = suc l.destroys }) e

-- What follows a successful AcquireLock. A close of nil panics.
after_acquire : ℕ → ℕ → Lock → Progress
unfolding emit_metrics
after_acquire at now l =
    if l.ready_open
    then running (record (emit_metrics true now (record l { acquired_time = at })) {
      reemit_armed = true;
      ready_open = false;
      ready_closes = suc l.ready_closes;
      retry_armed = false;
    })
    else panicked

-- What follows a Recreate.
after_recreate : Option SessionError → Lock → Lock
after_recreate (some e) l = record l { retry_armed = true }
after_recreate none l = record l {
  retry_armed = false;
  recreated = suc l.recreated;
  destroys = 0;
  acquiring = suc l.acquiring;
}

unfoldable pub step : Event → Lock → Progress
unfolding emit_metrics return after_acquire after_recreate
step signal l = return none (emit_metrics false 0 (record l { destroys = suc l.destroys }))
step (session_failed e) l =
    if l.ready_open then running l else return (some lock_lost) (emit_metrics false 0 l)
step (acquire_returned (some e) at now) l =
    running (record (emit_metrics false 0 l) { acquiring = l.acquiring - 1; retry_armed = true })
step (acquire_returned none at now) l =
    after_acquire at now (record l { acquiring = l.acquiring - 1 })
step (reemit_fired now) l = running (record (emit_metrics true now l) { reemit_armed = true })
step (retry_fired answer) l = running (after_recreate answer (record l { retry_armed = false }))

-- The channel of the event's case may have something to receive.
abbrev pub is_enabled : Event → Lock → Bool
is_enabled (acquire_returned e at now) l = ltb 0 l.acquiring
is_enabled (reemit_fired now) l = l.reemit_armed
is_enabled (retry_fired e) l = l.retry_armed
is_enabled _ l = true

pub data Reach : Progress → Type 0 where
  start : Reach (running started)
  next :
      {l : Lock} {p : Progress} (event : Event)
      → Reach (running l)
      → is_enabled event l ≡ true
      → step event l ≡ p
      → Reach p
