-- ===== src/Examples/Consul.antt =====
-- The sessions of the consul client at work.
use locket.Prelude.{
  String, ◌≡◌, ◌≢◌, refl, true, none, some, [], ◌∷◌, ◌==◌, if◌then◌else◌, err, arith, eq_iff,
}
use locket.Prelude.Int64.{pos}
use locket.Consul.Session.{
  Session, consul, invalid_session, new_session, recreate, convert_error, destroy, acquire_lock,
  set_presence, already_destroyed, find_sessions,
}
use locket.Consul.Session.Create.{is_held_as, recreate_replaces}
use locket.Consul.Session.Acquire.{Answered, acquire_lock_answers}
use locket.Consul.Session.Memory.{Memory, memory, memory-IsConsul, find, the_node, node, create}
use locket.Consul.Session.Memory
use locket.Consul.Session.Steps
use locket.Consul.Session.Steps.{
  Reach, here, next, session_created, lock_acquired, call_destroy, do_destroy,
}
use locket.Consul.Session.Steps.Invariant.{IsSound, Reach-IsSound}
use locket.Consul.Session.Steps.Deadlock.{destroy_deadlocks}

abbrev bbs_lock : Session
bbs_lock = new_session "bbs" (pos 15_000_000_000) true

-- An old session of the name, and one of another.
abbrev two_sessions : Memory
two_sessions = record {
  entries =
      record { id = "old"; name = "bbs"; ttl = pos 15_000_000_000 }
      ∷ record { id = "other"; name = "auctioneer"; ttl = pos 15_000_000_000 }
      ∷ [];
}

abbrev renewed : Session
renewed = record bbs_lock { id = "new" }

new_named : ◌≢◌ {A = String} "new" ""
new_named = ground (arith, eq_iff "new" "")

recreate_replaces_example :
    (renewed ≡ record (new_session "bbs" (pos 15_000_000_000) true) { id = "new" })
    × (◌≢◌ {A = String} "new" "")
    × ((id : String)
        → memory-IsConsul.sessions (recreate memory bbs_lock two_sessions).1 id ≡ (
            if "new" == id
            then some (record { name = "bbs"; node = memory-IsConsul.agent })
            else if is_held_as
                (memory-IsConsul.sessions two_sessions id)
                "bbs"
                memory-IsConsul.agent
            then none
            else memory-IsConsul.sessions two_sessions id))
unfolding recreate Memory.node Memory.destroy Memory.create
recreate_replaces_example =
    recreate_replaces memory memory-IsConsul bbs_lock renewed two_sessions refl

-- The old session is gone, the other one is kept.
recreated_sessions :
    (recreate memory bbs_lock two_sessions).1.entries
    ≡ record { id = "new"; name = "bbs"; ttl = pos 15_000_000_000 }
      ∷ record { id = "other"; name = "auctioneer"; ttl = pos 15_000_000_000 }
      ∷ []
unfolding recreate Memory.node Memory.destroy Memory.create
recreated_sessions = refl

invalid_session_converted :
    convert_error (consul "Unexpected response code: 500 (Invalid session)") ≡ invalid_session
unfolding convert_error
invalid_session_converted = refl

destroyed_session_refused :
    (acquire_lock memory "key" "value" (record bbs_lock { destroyed = true }, two_sessions)).0
    ≡ err already_destroyed
unfolding acquire_lock
destroyed_session_refused = refl

acquire_lock_answers_example :
    (let (r, (s', st)) = acquire_lock memory "key" "value" (bbs_lock, two_sessions) in
      Answered memory memory-IsConsul "key" "value" bbs_lock two_sessions r s' st)
    × (let (r, (s', st)) = set_presence memory "key" "value" (bbs_lock, two_sessions) in
        Answered memory memory-IsConsul "key" "value" bbs_lock two_sessions r s' st)
acquire_lock_answers_example =
    acquire_lock_answers memory memory-IsConsul "key" "value" bbs_lock two_sessions

-- A session that is made, gets its lock and is destroyed.
Reach-IsSound_example : IsSound (record {
  session = record bbs_lock { id = "new"; destroyed = true; done_closes = 1 };
  asked = "new" ∷ "old" ∷ [];
  cleared = (record { id = "old"; name = "bbs"; ttl = pos 15_000_000_000 }) ∷ [];
  err_ch = none;
  renewer = Steps.Renewer.renewing;
  monitor = Steps.Monitor.watching "key";
  caller = Steps.free;
})
unfolding destroy find_sessions
Reach-IsSound_example = Reach-IsSound "bbs" (pos 15_000_000_000) true (
    next
      (next
        (next (next here (session_created "new" two_sessions.entries refl refl refl new_named))
          (lock_acquired "key" refl new_named))
        (call_destroy refl))
      (do_destroy refl refl))

destroy_deadlocks_example :
    (s : Steps.System) × Reach (Steps.initial (new_session "bbs" (pos 15_000_000_000) true)) s
    × (s.caller ≡ Steps.destroying)
    × (s.err_ch ≡ some (Steps.report "" (some (consul "gone"))))
    × ((t : Steps.System) → ¬ Steps.Step s t)
destroy_deadlocks_example =
    destroy_deadlocks "bbs" (pos 15_000_000_000) true "new" "key" (some (consul "gone")) new_named
