-- ===== src/Consul/Presence.antt =====
-- presence.go: the runner that keeps one presence in consul. What its `select` receives is an `Event`,
-- with the answer of the call that the case makes. An attempt to set the presence is a goroutine that
-- sends its result to `presenceCh`; attempts of replaced sessions go on beside the current one, and
-- their results are handled alike.
pub mod History
pub mod Stale
use locket.Prelude.{
  ℕ, suc, ◌-◌, Bool, true, false, Option, none, some, List, [], ◌∷◌, if◌then◌else◌, ◌≡◌, ltb,
}
use locket.Consul.Session.{SessionError}

pub record Presence : Type 0 where
  pub ready_chan_closed : Bool
  pub ready_closes : ℕ
  -- the attempt of the current session, if its result has not been received; those of replaced ones
  pub setting : Bool
  pub setting_replaced : ℕ
  pub retry_armed : Bool
  -- `presenceLost` is not nil
  pub watching : Bool
  -- the sessions made by Recreate, and the calls of Destroy on the current one
  pub recreated : ℕ
  pub destroys : ℕ

pub data Event : Type 0 where
  signal presence_lost : Event
  session_failed : Option SessionError → Event
  -- the result of the attempt of the current session, and of one of a replaced session
  presence_set replaced_set : Option SessionError → Event
  retry_fired : Option SessionError → Event

pub data Progress : Type 0 where
  running : Presence → Progress
  exited : Presence → Progress

-- At the first `select`.
abbrev pub started : Presence
started = record {
  ready_chan_closed = false;
  ready_closes = 0;
  setting = true;
  setting_replaced = 0;
  retry_armed = false;
  watching = false;
  recreated = 0;
  destroys = 0;
}

-- The close of `ready` at the first success.
close_ready : Presence → Presence
close_ready p =
    if p.ready_chan_closed
    then p
    else record p { ready_chan_closed = true; ready_closes = suc p.ready_closes }

after_set : Option SessionError → Presence → Presence
unfolding close_ready
after_set none p = record (close_ready p) { retry_armed = false; watching = true }
after_set (some e) p = record p { retry_armed = true }

after_recreate : Option SessionError → Presence → Presence
after_recreate (some e) p = record p { retry_armed = true }
after_recreate none p = record p {
  recreated = suc p.recreated;
  destroys = 0;
  retry_armed = false;
  setting = true;
  setting_replaced = if p.setting then suc p.setting_replaced else p.setting_replaced;
}

unfoldable pub step : Event → Presence → Progress
unfolding after_set after_recreate
step signal p = exited (record p { destroys = suc p.destroys })
step presence_lost p = running (record p { watching = false; retry_armed = true })
step (session_failed e) p = running (record p { watching = false; retry_armed = true })
step (presence_set answer) p = running (after_set answer (record p { setting = false }))
step (replaced_set answer) p =
    running (after_set answer (record p { setting_replaced = p.setting_replaced - 1 }))
step (retry_fired answer) p =
    running (after_recreate answer (record p { watching = false; retry_armed = false }))

-- The channel of the event's case may have something to receive.
abbrev pub is_enabled : Event → Presence → Bool
is_enabled presence_lost p = p.watching
is_enabled (presence_set e) p = p.setting
is_enabled (replaced_set e) p = ltb 0 p.setting_replaced
is_enabled (retry_fired e) p = p.retry_armed
is_enabled _ p = true

pub data Reach : Progress → Type 0 where
  start : Reach (running started)
  next :
      {p : Presence} {q : Progress} (event : Event)
      → Reach (running p)
      → is_enabled event p ≡ true
      → step event p ≡ q
      → Reach q
