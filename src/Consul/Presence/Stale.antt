-- ===== src/Consul/Presence/Stale.antt =====
-- An attempt of a replaced session that fails late.
use locket.Prelude.{◌≡◌, refl, true, false, none, some}
use locket.Consul.Session.{SessionError}
use locket.Consul.Presence.{
  Presence, session_failed, presence_set, replaced_set, retry_fired, running, step, is_enabled,
  Reach, start, next,
}

-- The second session has set the presence; the attempt of the first is still under way.
abbrev two_attempts : Presence
two_attempts = record {
  ready_chan_closed = true;
  ready_closes = 1;
  setting = false;
  setting_replaced = 1;
  retry_armed = false;
  watching = true;
  recreated = 1;
  destroys = 0;
}

two_attempts-Reach : Reach (running two_attempts)
unfolding step
two_attempts-Reach =
    next (presence_set none)
      (next (retry_fired none) (next (session_failed none) start refl refl) refl refl) refl refl

-- For every error there is a run in which the first session has been replaced once, with its attempt
-- still under way, the second session has set the presence, and the runner watches it and has no other
-- attempt under way and no timer armed. The attempt of the first session may then fail with that error;
-- that alone arms the timer, which makes the runner stop watching and replace the second session.
pub late_failure_replaces_session :
    (late : SessionError)
    → (p q r : Presence) × Reach (running p)
      × (p.recreated ≡ 1)
      × (p.watching ≡ true)
      × (p.setting ≡ false)
      × (p.setting_replaced ≡ 1)
      × (p.retry_armed ≡ false)
      × (is_enabled (replaced_set (some late)) p ≡ true)
      × (step (replaced_set (some late)) p ≡ running q)
      × (is_enabled (retry_fired none) q ≡ true)
      × (step (retry_fired none) q ≡ running r)
      × (r.watching ≡ false)
      × (r.recreated ≡ 2)
unfolding step
late_failure_replaces_session late = (
  two_attempts, _, _, two_attempts-Reach, refl, refl, refl, refl, refl, refl, refl, refl, refl,
  refl, refl,
)
