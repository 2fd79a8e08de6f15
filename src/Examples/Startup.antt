-- ===== src/Examples/Startup.antt =====
-- A member of a joint lock with a time to get ready in.
use locket.Prelude.{◌≡◌, ◌+◌, ◌&&◌, false, List, refl, some, none, [], ◌∷◌, ◌++◌, map}
use locket.Joint.{
  Event, signalled, timed_out, member_ready, member_exited, member_failed, failed_to_start,
  TimeoutRunner, waiting, finished, run, new_timeout_runner, plain, with_timeout, new_joint_lock,
}
use locket.Joint.Startup.{closes, returns_nil, ready_once, unready_member}

abbrev runner : TimeoutRunner
runner = new_timeout_runner "presence"

abbrev late_failure : List Event
late_failure = signalled 2 ∷ member_ready ∷ member_exited (some (member_failed 1)) ∷ []

ready_once_example :
    (closes (run late_failure (waiting runner)) ≡ 0 + 1)
    × ((returns_nil (run late_failure (waiting runner)) && false) ≡ false)
ready_once_example = ready_once late_failure runner

unready_member_example :
    (run
        (map signalled (2 ∷ 15 ∷ []) ++ timed_out ∷ member_ready ∷ signalled 9 ∷ [])
        (waiting runner)
      ≡ finished (record runner { forwarded = 15 ∷ 2 ∷ [] }) (some (failed_to_start "presence")))
    × (run
          (map signalled (2 ∷ 15 ∷ []) ++ member_exited none ∷ member_exited none ∷ [])
          (waiting runner)
        ≡ finished (record runner { ready_closes = 1; forwarded = 15 ∷ 2 ∷ [] }) none)
unready_member_example = unready_member (2 ∷ 15 ∷ []) (member_ready ∷ signalled 9 ∷ []) runner

new_joint_lock_first :
    new_joint_lock (plain "lock" ∷ plain "presence" ∷ [])
    ≡ plain "lock" ∷ with_timeout "presence" ∷ []
unfolding new_joint_lock
new_joint_lock_first = refl
