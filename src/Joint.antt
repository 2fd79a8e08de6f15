-- ===== src/Joint.antt =====
-- jointlock/: the runner that gives a member of a group a time to get ready in, and the group of locks.
-- `Event` is what a case of the two `select`s receives. The member's process, its timer and the
-- ordered group that the runners are passed to are packages outside this repository.
pub mod Startup
use locket.Prelude.{ℕ, suc, String, Option, none, some, List, [], ◌∷◌, map}

-- The process's exit error is a number of its own.
pub data RunError : Type 0 where
  failed_to_start : String → RunError
  member_failed : ℕ → RunError

pub data Event : Type 0 where
  member_ready timed_out : Event
  signalled : ℕ → Event
  member_exited : Option RunError → Event

-- `forwarded` are the signals sent to the member's process, newest first.
pub record TimeoutRunner : Type 0 where
  pub name : String
  pub ready_closes : ℕ
  pub forwarded : List ℕ

-- In waitForReadyExitOrTimeout, in the loop of `Run` after it, or returned.
pub data Progress : Type 0 where
  waiting serving : TimeoutRunner → Progress
  finished : TimeoutRunner → Option RunError → Progress

abbrev pub new_timeout_runner : String → TimeoutRunner
new_timeout_runner name = record { name = name; ready_closes = 0; forwarded = [] }

forward : ℕ → TimeoutRunner → TimeoutRunner
forward sig t = record t { forwarded = sig ∷ t.forwarded }

-- `Run` after the wait: an error is returned, and otherwise `ready` is closed.
after_wait : Option RunError → TimeoutRunner → Progress
after_wait (some e) t = finished t (some e)
after_wait none t = serving (record t { ready_closes = suc t.ready_closes })

wait_step : Event → TimeoutRunner → Progress
unfolding forward after_wait
wait_step member_ready t = after_wait none t
wait_step (signalled sig) t = waiting (forward sig t)
wait_step timed_out t = after_wait (some (failed_to_start t.name)) t
wait_step (member_exited e) t = after_wait e t

-- The second select receives neither the timer nor that the member is ready.
serve_step : Event → TimeoutRunner → Progress
unfolding forward
serve_step (member_exited e) t = finished t e
serve_step (signalled sig) t = serving (forward sig t)
serve_step _ t = serving t

unfoldable pub step : Event → Progress → Progress
unfolding wait_step serve_step
step event (waiting t) = wait_step event t
step event (serving t) = serve_step event t
step event (finished t e) = finished t e

unfoldable pub run : List Event → Progress → Progress
unfolding step
run [] p = p
run (event ∷ events) p = run events (step event p)

pub data Member : Type 0 where
  plain with_timeout : String → Member

name_of : Member → String
name_of (plain name) = name
name_of (with_timeout name) = name

-- The members of the group: every one but the first is given a timeout.
unfoldable pub new_joint_lock : List Member → List Member
unfolding name_of
new_joint_lock [] = []
new_joint_lock (first ∷ runners) = first ∷ map (λ m. with_timeout (name_of m)) runners
