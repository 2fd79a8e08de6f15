-- ===== src/Examples/Watch.antt =====
-- The runners of the consul client at work.
use locket.Prelude.{String, ◌≡◌, ◌≢◌, refl, true, false, none, some, List, [], ◌∷◌, Result, err}
use locket.Prelude.Int64.{ℤ}
use locket.Consul.Session.{cancelled}
use locket.Consul.Lock
use locket.Consul.Lock.History.{IsSoundProgress, Reach-IsSoundProgress}
use locket.Consul.Presence
use locket.Consul.Presence.History
use locket.Consul.Presence.History.{never_gives_up}
use locket.Consul.Presence.Stale.{late_failure_replaces_session}
use locket.Consul.Watcher
use locket.Consul.Watcher.{Response, list_failed, listed, KvPair, watch, new_watch}
use locket.Consul.Watcher.Reports.{reports, disappearances, accepted, AllFull, watch-reports}
use locket.Consul.Registration
use locket.Consul.Registration.{Registration, calculate_poll_interval, interval_of}
use locket.Consul.Registration.History.{IsAccounted, passes, due, Reach-IsAccounted}

abbrev held : Lock.Lock
held = record {
  ready_open = false;
  ready_closes = 1;
  acquiring = 0;
  retry_armed = false;
  reemit_armed = true;
  acquired_time = 7;
  recreated = 1;
  destroys = 0;
  emitted =
      Lock.lock_held true ∷ Lock.lock_uptime 1 ∷ Lock.lock_held false ∷ Lock.lock_uptime 0 ∷ [];
}

abbrev lost : Lock.Lock
lost = record held {
  destroys = 1;
  emitted = Lock.lock_held false ∷ Lock.lock_uptime 0 ∷ held.emitted;
}

-- A failed attempt, a session that is made again, the lock, and its loss.
Reach-IsSoundProgress_example : IsSoundProgress (Lock.exited lost (some Lock.lock_lost))
unfolding Lock.step
Reach-IsSoundProgress_example = Reach-IsSoundProgress (
    Lock.next (Lock.session_failed none)
      (Lock.next {p = Lock.running held} (Lock.acquire_returned none 7 8)
        (Lock.next (Lock.retry_fired none)
          (Lock.next (Lock.acquire_returned (some cancelled) 3 3) Lock.start refl refl) refl refl)
        refl refl)
      refl refl)

abbrev present : Presence.Presence
present = record Presence.started {
  ready_chan_closed = true;
  ready_closes = 1;
  setting = false;
  watching = true;
}

never_gives_up_example :
    History.IsSoundProgress
      (Presence.running (record present { watching = false; retry_armed = true }))
unfolding Presence.step
never_gives_up_example = never_gives_up (
    Presence.next {p = present} Presence.presence_lost
      (Presence.next (Presence.presence_set none) Presence.start refl refl) refl refl)

late_failure_replaces_session_example :
    (p q r : Presence.Presence) × Presence.Reach (Presence.running p)
    × (p.recreated ≡ 1)
    × (p.watching ≡ true)
    × (p.setting ≡ false)
    × (p.setting_replaced ≡ 1)
    × (p.retry_armed ≡ false)
    × (Presence.is_enabled (Presence.replaced_set (some cancelled)) p ≡ true)
    × (Presence.step (Presence.replaced_set (some cancelled)) p ≡ Presence.running q)
    × (Presence.is_enabled (Presence.retry_fired none) q ≡ true)
    × (Presence.step (Presence.retry_fired none) q ≡ Presence.running r)
    × (r.watching ≡ false)
    × (r.recreated ≡ 2)
late_failure_replaces_session_example = late_failure_replaces_session cancelled

-- Two cells, of which the second goes while a listing fails.
abbrev rounds : List Response
rounds =
    listed
      (some
        (record { key = "cell-1"; session = "a" } ∷ record { key = "cell-2"; session = "b" } ∷ []))
      7 false
    ∷ list_failed
    ∷ listed (some (record { key = "cell-1"; session = "a" } ∷ [])) 9 false
    ∷ []

watch-reports_example :
    ((k : String)
      → reports k (watch rounds new_watch).sent ≡ disappearances false k (accepted rounds))
    × AllFull (watch rounds new_watch).sent
watch-reports_example = watch-reports rounds

rounds_sent : (watch rounds new_watch).sent ≡ ("cell-2" ∷ []) ∷ []
unfolding watch Watcher.new_key_set Watcher.difference
rounds_sent = refl

cell_gone : ◌≢◌ {A = List String} ("cell-2" ∷ []) []
cell_gone e = cc

-- A service without an id and without a health check.
abbrev bbs : Registration
bbs = record { id = ""; name = "bbs"; check_ttl = none; checks = 0 }

abbrev no_durations : String → Result String ℤ
no_durations text = err "no duration"

abbrev deregistered : Registration.Runner
deregistered = record {
  registering = 0;
  timer_armed = false;
  ready_closes = 1;
  calls =
      Registration.service_deregister ""
      ∷ Registration.pass_ttl "service:bbs"
      ∷ Registration.service_register
      ∷ [];
}

abbrev deregisters : Registration.Reach no_durations bbs (Registration.returned deregistered none)
unfolding Registration.step Registration.start calculate_poll_interval Registration.check_id
deregisters =
    Registration.next (Registration.signal none)
      (Registration.next (Registration.registered none)
        (Registration.next (Registration.timer_fired none) Registration.started refl refl) refl
        refl)
      refl refl

Reach-IsAccounted_example :
    IsAccounted bbs
      (interval_of (calculate_poll_interval no_durations bbs))
      (Registration.returned deregistered none)
    × (passes deregistered.calls ≡ due deregisters)
Reach-IsAccounted_example = Reach-IsAccounted no_durations bbs deregisters
