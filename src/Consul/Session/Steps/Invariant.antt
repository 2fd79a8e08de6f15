-- ===== src/Consul/Session/Steps/Invariant.antt =====
-- What holds of a session however its goroutines are interleaved.
use locket.Prelude.{
  String, ◌≡◌, ◌∙◌, refl, ap, Bool, true, false, not, ◌&&◌, List, [], ◌∷◌, map, ◌==◌, if◌then◌else◌,
  arith, eq_iff, Bool-cases, inl, inr,
}
use locket.Prelude.Int64.{ℤ}
use locket.Consul.Session.{SessionEntry, destroy, find_sessions, new_session}
use locket.Consul.Session.Steps.{
  System, initial, Renewer, reporting, Monitor, sending, Step, note_all, clear, creation_fails,
  session_created, lock_acquired, receive, call_destroy, do_destroy, renew_returns, renew_destroys,
  renew_reports, lock_is_lost, monitor_done, monitor_destroys, monitor_locks, monitor_sends, Reach,
  here, next,
}

abbrev pub is_ending : Renewer → Bool
is_ending (reporting e) = true
is_ending Renewer.finished = true
is_ending _ = false

abbrev pub is_not_started : Renewer → Bool
is_not_started Renewer.not_started = true
is_not_started _ = false

abbrev pub is_sending : Monitor → Bool
is_sending (sending key) = true
is_sending _ = false

abbrev pub AllNamed : String → List SessionEntry → Type 0
AllNamed name [] = Unit
AllNamed name (e ∷ entries) = (e.name ≡ name) × AllNamed name entries

-- doneCh was closed once if the session is destroyed and never if not; consul was asked to destroy
-- the sessions that `create` has cleared away, all of the session's name, and after them the session,
-- once, if it is destroyed and was made; the session was made before it
-- is renewed; it is destroyed once the renewer reports, and while the monitor sends.
pub record IsSound (s : System) : Type 0 where
  pub closed_once : s.session.done_closes ≡ (if s.session.destroyed then 1 else 0)
  pub asked_once : s.asked ≡ (
      if s.session.destroyed && not (s.session.id == "")
      then s.session.id ∷ map SessionEntry.id s.cleared
      else map SessionEntry.id s.cleared)
  pub cleared_named : AllNamed s.session.name s.cleared
  pub made : is_not_started s.renewer ≡ (s.session.id == "")
  pub reported : is_ending s.renewer ≡ true → s.session.destroyed ≡ true
  pub sent : is_sending s.monitor ≡ true → s.session.destroyed ≡ true

initial-IsSound :
    (name : String) (ttl : ℤ) (no_checks : Bool)
    → IsSound (initial (new_session name ttl no_checks))
initial-IsSound name ttl no_checks = ground arith

note_all-map :
    (entries noted : List SessionEntry)
    → note_all (map SessionEntry.id entries) (map SessionEntry.id noted)
      ≡ map SessionEntry.id (note_all entries noted)
note_all-map [] noted = refl
note_all-map (e ∷ entries) noted = note_all-map entries (e ∷ noted)

AllNamed-note_all :
    (name : String) (entries noted : List SessionEntry)
    → AllNamed name entries
    → AllNamed name noted
    → AllNamed name (note_all entries noted)
AllNamed-note_all name [] noted h k = k
AllNamed-note_all name (e ∷ entries) noted (p, h) k =
    AllNamed-note_all name entries (e ∷ noted) h (p, k)

AllNamed-find_sessions :
    (name : String) (entries : List SessionEntry) → AllNamed name (find_sessions name entries)
unfolding find_sessions
AllNamed-find_sessions name [] = tt
AllNamed-find_sessions name (e ∷ entries) = elim (Bool-cases (e.name == name)) [
  | inl same ↦ rw same ((eq_iff e.name name).0 same, AllNamed-find_sessions name entries)
  | inr other ↦ rw other (AllNamed-find_sessions name entries)
]

module _ {s : System} (v : IsSound s) (live : s.session.destroyed ≡ false)
    (sessions : List SessionEntry) where
  clear_asked : (clear sessions s).asked ≡ map SessionEntry.id (clear sessions s).cleared
  clear_asked =
      ap (note_all (map SessionEntry.id (find_sessions s.session.name sessions)))
        (ground (arith, v.asked_once, live))
      ∙ note_all-map (find_sessions s.session.name sessions) s.cleared

  clear_named : AllNamed s.session.name (clear sessions s).cleared
  clear_named =
      AllNamed-note_all s.session.name (find_sessions s.session.name sessions) s.cleared
        (AllNamed-find_sessions s.session.name sessions) v.cleared_named

Step-IsSound : {s t : System} → Step s t → IsSound s → IsSound t
unfolding destroy
Step-IsSound (session_created id sessions r m d ne) v = record {
  closed_once = v.closed_once;
  asked_once = rw d (clear_asked v d sessions);
  cleared_named = clear_named v d sessions;
  made = ground (arith, eq_iff id "");
  reported = ground (arith, v, r);
  sent = v.sent;
}
Step-IsSound (creation_fails sessions r m d) v = record {
  closed_once = v.closed_once;
  asked_once = rw d (clear_asked v d sessions);
  cleared_named = clear_named v d sessions;
  made = v.made;
  reported = v.reported;
  sent = v.sent;
}
Step-IsSound (lock_acquired key m ne) v = ground arith
Step-IsSound (receive e c f) v = ground arith
Step-IsSound (call_destroy c) v = ground arith
Step-IsSound (do_destroy c m) v = ground arith
Step-IsSound (renew_returns e r) v = ground arith
Step-IsSound (renew_destroys e r m) v = ground arith
Step-IsSound (renew_reports e r f) v = ground arith
Step-IsSound (lock_is_lost key m) v = ground arith
Step-IsSound (monitor_done key m d) v = ground arith
Step-IsSound (monitor_destroys key m d) v = ground arith
Step-IsSound (monitor_locks key m d) v = ground arith
Step-IsSound (monitor_sends key m f) v = ground arith

-- However the caller, the renewal and the watch of its lock are interleaved, a session stays sound from
-- its start: doneCh is closed once if the session is destroyed and never if not, so no close panics;
-- consul was asked to destroy the sessions of its name that it found before it was made, and after them
-- only the session, once if it is destroyed and was made; the renewal runs only once it was made; and a
-- session that has reported an error is destroyed.
pub Reach-IsSound :
    (name : String) (ttl : ℤ) (no_checks : Bool) {s : System}
    → Reach (initial (new_session name ttl no_checks)) s
    → IsSound s
Reach-IsSound name ttl no_checks here = initial-IsSound name ttl no_checks
Reach-IsSound name ttl no_checks (next r st) = Step-IsSound st (Reach-IsSound name ttl no_checks r)
