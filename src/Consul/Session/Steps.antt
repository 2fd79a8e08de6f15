-- ===== src/Consul/Session/Steps.antt =====
-- A session at work: one caller, the goroutine that renews it, and the goroutine that watches its
-- lock, interleaved in any order. The sections that hold the mutex are one step each, but for the
-- monitor's send, during which it holds on to the mutex.
pub mod Invariant
pub mod Deadlock
use mathlib.Core.Option
use locket.Prelude.{
  String, ◌≡◌, Bool, true, false, ◌&&◌, ◌||◌, not, Option, none, some, List, [], ◌∷◌, ◌==◌,
  if◌then◌else◌, ◌≢◌, ℕ, map,
}
use locket.Consul.Session.{
  Session, SessionError, SessionEntry, consul, lost_lock, convert_error, destroy, find_sessions,
}

-- The goroutine of createSession.
pub data Renewer : Type 0 where
  not_started renewing : Renewer
  -- RenewPeriodic has returned
  ended : Option SessionError → Renewer
  -- after its critical section
  reporting : Option SessionError → Renewer
  finished : Renewer

-- The goroutine of AcquireLock.
pub data Monitor : Type 0 where
  not_started : Monitor
  watching : String → Monitor
  -- lostCh was closed
  lost : String → Monitor
  -- sends to errCh, with the mutex
  sending : String → Monitor
  finished : Monitor

pub data Caller : Type 0 where
  -- may receive from errCh
  free : Caller
  -- has called Destroy
  destroying : Caller

pub record System : Type 0 where
  pub session : Session
  -- the ids that consul was asked to destroy, newest first
  pub asked : List String
  -- the sessions that `create` has cleared away, newest first
  pub cleared : List SessionEntry
  -- what errCh, a channel of capacity 1, holds
  pub err_ch : Option (Option SessionError)
  pub renewer : Renewer
  pub monitor : Monitor
  pub caller : Caller

abbrev pub initial : Session → System
initial session = record {
  session = session;
  asked = [];
  cleared = [];
  err_ch = none;
  renewer = Renewer.not_started;
  monitor = Monitor.not_started;
  caller = free;
}

-- Nobody but a sending monitor keeps the mutex from one step to the next.
abbrev pub mutex_free : Monitor → Bool
mutex_free (sending key) = false
mutex_free _ = true

abbrev pub destroy_session : System → System
destroy_session s = record s {
  session = (destroy (s.session, s.asked)).0;
  asked = (destroy (s.session, s.asked)).1;
}

-- What the renewer reports of its error and of what it has read as lostLock.
unfoldable pub report : String → Option SessionError → Option SessionError
report key e = if not (key == "") then some (lost_lock key) else Option.map convert_error e

-- `create` asks consul to destroy the sessions of the name, one by one.
abbrev pub note_all : {A : Type 0} → List A → List A → List A
note_all [] noted = noted
note_all (x ∷ xs) noted = note_all xs (x ∷ noted)

-- `sessions` are those that consul lists for the node.
abbrev pub clear : List SessionEntry → System → System
clear sessions s = record s {
  asked = note_all (map SessionEntry.id (find_sessions s.session.name sessions)) s.asked;
  cleared = note_all (find_sessions s.session.name sessions) s.cleared;
}

pub data Step (s : System) : System → Type 0 where
  -- AcquireLock, at createSession: consul has made the session
  session_created :
      (id : String) (sessions : List SessionEntry)
      → s.renewer ≡ Renewer.not_started
      → mutex_free s.monitor ≡ true
      → s.session.destroyed ≡ false
      → id ≢ ""
      → Step s (record (clear sessions s) {
        session = record (s.session) { id = id };
        renewer = renewing;
      })
  -- An error of consul: `sessions` are those of the list up to it, none if there is no list.
  creation_fails :
      (sessions : List SessionEntry)
      → s.renewer ≡ Renewer.not_started
      → mutex_free s.monitor ≡ true
      → s.session.destroyed ≡ false
      → Step s (clear sessions s)
  -- AcquireLock, after lock.Lock
  lock_acquired :
      (key : String)
      → s.monitor ≡ Monitor.not_started
      → s.session.id ≢ ""
      → Step s (record s { monitor = watching key })
  receive :
      (e : Option SessionError)
      → s.caller ≡ free
      → s.err_ch ≡ some e
      → Step s (record s { err_ch = none })
  call_destroy : s.caller ≡ free → Step s (record s { caller = destroying })
  do_destroy :
      s.caller ≡ destroying
      → mutex_free s.monitor ≡ true
      → Step s (record (destroy_session s) { caller = free })
  renew_returns :
      (e : Option SessionError) → s.renewer ≡ renewing → Step s (record s { renewer = ended e })
  renew_destroys :
      (e : Option SessionError)
      → s.renewer ≡ ended e
      → mutex_free s.monitor ≡ true
      → Step s (record (destroy_session s) { renewer = reporting (report s.session.lost_lock e) })
  renew_reports :
      (e : Option SessionError)
      → s.renewer ≡ reporting e
      → s.err_ch ≡ none
      → Step s (record s { renewer = Renewer.finished; err_ch = some e })
  lock_is_lost :
      (key : String) → s.monitor ≡ watching key → Step s (record s { monitor = lost key })
  monitor_done :
      (key : String)
      → s.monitor ≡ watching key
      → s.session.done_closes ≢ 0
      → Step s (record s { monitor = Monitor.finished })
  monitor_destroys :
      (key : String)
      → s.monitor ≡ lost key
      → s.session.destroyed ≡ false
      → Step s
          (record (destroy_session
            (record s { session = record (s.session) { lost_lock = key } })) {
              monitor = Monitor.finished;
            })
  monitor_locks :
      (key : String)
      → s.monitor ≡ lost key
      → s.session.destroyed ≡ true
      → Step s (record s { monitor = sending key })
  monitor_sends :
      (key : String)
      → s.monitor ≡ sending key
      → s.err_ch ≡ none
      → Step s (record s { monitor = Monitor.finished; err_ch = some (some (lost_lock key)) })

pub data Reach (s : System) : System → Type 0 where
  here : Reach s s
  next : {t u : System} → Reach s t → Step t u → Reach s u
