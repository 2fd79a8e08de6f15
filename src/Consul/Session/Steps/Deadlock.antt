-- ===== src/Consul/Session/Steps/Deadlock.antt =====
-- A caller of Destroy that waits for ever.
use locket.Prelude.{String, ◌≡◌, ◌≢◌, refl, Bool, Option, some, List, []}
use locket.Prelude.Int64.{ℤ}
use locket.Consul.Session.{Session, SessionEntry, SessionError, destroy, new_session}
use locket.Consul.Session.Steps.{
  System, initial, report, Renewer, sending, Step, session_created, creation_fails, lock_acquired,
  receive, call_destroy, do_destroy, renew_returns, renew_destroys, renew_reports, lock_is_lost,
  monitor_done, monitor_destroys, monitor_locks, monitor_sends, Reach, here, next, destroying,
}

module _ (session : Session) (asked : List String) (cleared : List SessionEntry)
    (e : Option SessionError) (key : String) where
  -- The renewal has reported, nobody has received the report, the monitor sends another with the mutex,
  -- and the caller wants the mutex.
  abbrev pub stuck : System
  stuck = record {
    session = session;
    asked = asked;
    cleared = cleared;
    err_ch = some e;
    renewer = Renewer.finished;
    monitor = sending key;
    caller = destroying;
  }

  stuck-ne-Step : (t : System) → ¬ Step stuck t
  stuck-ne-Step t (session_created id sessions r m d ne) = cc
  stuck-ne-Step t (creation_fails sessions r m d) = cc
  stuck-ne-Step t (lock_acquired k m ne) = cc
  stuck-ne-Step t (receive x c f) = cc
  stuck-ne-Step t (call_destroy c) = cc
  stuck-ne-Step t (do_destroy c m) = cc
  stuck-ne-Step t (renew_returns x r) = cc
  stuck-ne-Step t (renew_destroys x r m) = cc
  stuck-ne-Step t (renew_reports x r f) = cc
  stuck-ne-Step t (lock_is_lost k m) = cc
  stuck-ne-Step t (monitor_done k m d) = cc
  stuck-ne-Step t (monitor_destroys k m d) = cc
  stuck-ne-Step t (monitor_locks k m d) = cc
  stuck-ne-Step t (monitor_sends k m f) = cc

-- For every session, id, lock and error of the renewal there is a run in which the renewal ends with
-- that error and reports it, the loss of the lock is noticed, and the caller calls Destroy before it
-- has received the report; then nothing can move any more, and the caller waits in Destroy for ever.
pub destroy_deadlocks :
    (name : String) (ttl : ℤ) (no_checks : Bool) (id key : String) (e : Option SessionError)
    → id ≢ ""
    → (s : System) × Reach (initial (new_session name ttl no_checks)) s
      × (s.caller ≡ destroying)
      × (s.err_ch ≡ some (report "" e))
      × ((t : System) → ¬ Step s t)
unfolding destroy
destroy_deadlocks name ttl no_checks id key e ne = (
  _,
  next
      (next
        (next
          (next
            (next
              (next
                (next (next here (session_created id [] refl refl refl ne))
                  (lock_acquired key refl ne))
                (lock_is_lost key refl))
              (renew_returns e refl))
            (renew_destroys e refl refl))
          (monitor_locks key refl refl))
        (renew_reports (report "" e) refl refl))
      (call_destroy refl),
  refl,
  refl,
  stuck-ne-Step _ _ _ _ _,
)
