-- ===== src/Consul/Presence/History.antt =====
-- What a runner of a consul presence has done, whatever happened.
use locket.Prelude.{◌≡◌, true, ◌||◌, none, some, if◌then◌else◌, arith, subst}
use locket.Consul.Presence.{
  Presence, Event, signal, presence_lost, session_failed, presence_set, replaced_set, retry_fired,
  Progress, running, exited, step, is_enabled, Reach, start, next,
}

-- The runner watches a presence, has an attempt of its session under way, or its timer is armed; it watches one only
-- after it has closed `ready`.
pub record IsSound (p : Presence) : Type 0 where
  pub closes_once : p.ready_closes ≡ (if p.ready_chan_closed then 1 else 0)
  pub goes_on : (p.watching || p.setting || p.retry_armed) ≡ true
  pub ready_first : p.watching ≡ true → p.ready_chan_closed ≡ true
  pub session_kept : p.destroys ≡ 0

abbrev pub IsSoundProgress : Progress → Type 0
IsSoundProgress (running p) = IsSound p
IsSoundProgress (exited p) =
    (p.ready_closes ≡ (if p.ready_chan_closed then 1 else 0)) × (p.destroys ≡ 1)

step-IsSound :
    (event : Event) (p : Presence)
    → is_enabled event p ≡ true
    → IsSound p
    → IsSoundProgress (step event p)
unfolding step
step-IsSound signal p h v = ground arith
step-IsSound presence_lost p h v = ground arith
step-IsSound (session_failed e) p h v = ground arith
step-IsSound (presence_set (some e)) p h v = ground arith
step-IsSound (presence_set none) p h v = ground arith
step-IsSound (replaced_set (some e)) p h v = ground arith
step-IsSound (replaced_set none) p h v = ground arith
step-IsSound (retry_fired (some e)) p h v = ground arith
step-IsSound (retry_fired none) p h v = ground arith

-- Whatever the runner of a consul presence receives, in any order, it closes `ready` at most once, and
-- before it watches a presence. It never gives up: until it returns, it watches its presence, has an
-- attempt of its current session under way, or its retry timer is armed. When it returns, its session is destroyed.
pub never_gives_up : {q : Progress} → Reach q → IsSoundProgress q
never_gives_up start = ground arith
never_gives_up (next {p} event r h e) =
    subst IsSoundProgress e (step-IsSound event p h (never_gives_up r))
