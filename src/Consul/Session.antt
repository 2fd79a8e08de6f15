-- ===== src/Consul/Session.antt =====
-- session.go: a session of the consul client, and what it calls of consul. An error of consul is its
-- text; a session's own errors are `SessionError`.
pub mod Create
pub mod Memory
pub mod Acquire
pub mod Steps
use text.Mathlib.Text.{starts_with}
use locket.Prelude.{
  ℕ, suc, String, ◌/◌, ◌-◌, Bool, true, false, ◌&&◌, ◌||◌, not, Option, none, some, List, [], ◌∷◌,
  ◌==◌, if◌then◌else◌, nat_eq, Result, ok, err, Exec, pure, raise, ◌>>=◌, ◌>>◌, filter,
}
use locket.Prelude.Int64.{ℤ, pos, negsuc}

pub data SessionError : Type 0 where
  invalid_session already_destroyed cancelled : SessionError
  lost_lock : String → SessionError
  consul : String → SessionError

-- A session as consul lists it, and as it is asked for. The TTL is the duration whose text is sent;
-- Behavior and LockDelay are the same for every session, and are left out.
pub record SessionEntry : Type 0 where
  pub id : String
  pub name : String
  pub ttl : ℤ

pub record LockOptions : Type 0 where
  pub key : String
  pub value : String
  pub session : String
  pub monitor_retries : ℤ
  pub monitor_retry_time : ℤ

-- The calls of the consul client. `lock` is LockOpts(...) with the Lock(doneCh) of its result, and
-- says whether there is a channel for the loss of the lock.
pub record ConsulClient : Type 1 where
  pub Store : Type 0
  pub node_name : Exec String Store String
  pub node : String → Exec String Store (List SessionEntry)
  pub destroy : String → Exec String Store (Unit {0})
  pub create : SessionEntry → Exec String Store String
  pub create_no_checks : SessionEntry → Exec String Store String
  pub lock : LockOptions → Exec String Store Bool

pub record Session : Type 0 where
  pub name : String
  pub ttl : ℤ
  pub no_checks : Bool
  pub id : String
  pub destroyed : Bool
  -- how often doneCh was closed: a second close panics
  pub done_closes : ℕ
  pub lost_lock : String

abbrev pub new_session : String → ℤ → Bool → Session
new_session name ttl no_checks = record {
  name = name;
  ttl = ttl;
  no_checks = no_checks;
  id = "";
  destroyed = false;
  done_closes = 0;
  lost_lock = "";
}

-- The session, and the ids that consul was asked to destroy, newest first.
unfoldable pub destroy : Session × List String → Session × List String
destroy (s, asked) = if s.destroyed then (s, asked) else (
  record s { done_closes = suc s.done_closes; destroyed = true },
  if s.id == "" then asked else s.id ∷ asked,
)

-- strings.Contains
abbrev pub contains : String → String → Bool
contains String.[] t = starts_with "" t
contains (String.◌∷◌ c s) t = starts_with (String.◌∷◌ c s) t || contains s t

unfoldable pub convert_error : SessionError → SessionError
convert_error (consul text) =
    if contains text "500 (Invalid session)" then invalid_session else consul text
convert_error e = e

unfoldable pub find_sessions : String → List SessionEntry → List SessionEntry
find_sessions name [] = []
find_sessions name (session ∷ sessions) =
    let matches = find_sessions name sessions in
    if session.name == name then session ∷ matches else matches

-- Go's division of int64 numbers, rounded towards zero.
abbrev pub quot_int64 : ℤ → ℕ → ℤ
quot_int64 (pos n) d = pos (n / d)
quot_int64 (negsuc n) d = if nat_eq (suc n / d) 0 then pos 0 else negsuc (suc n / d - 1)

-- MonitorRetryTime of schema.go, in nanoseconds.
abbrev pub monitor_retry_time : ℕ
monitor_retry_time = 2_000_000_000

abbrev pub lock_options : Session → String → String → LockOptions
lock_options s key value = record {
  key = key;
  value = value;
  session = s.id;
  monitor_retries = quot_int64 s.ttl monitor_retry_time;
  monitor_retry_time = pos monitor_retry_time;
}

-- The error of a step, converted.
abbrev with_error {ℓ} : {E F S A : Type ℓ} → (E → F) → Exec E S A → Exec F S A
with_error f m s = elim (m s).0 [ ok a ↦ (ok a, (m s).1) | err e ↦ (err (f e), (m s).1) ]

module _ (client : ConsulClient) where
  open client use {Store, node_name, node, create, create_no_checks}

  destroy_all : List SessionEntry → Exec String Store (Unit {0})
  destroy_all [] = pure tt
  destroy_all (session ∷ sessions) = client.destroy session.id >> destroy_all sessions

  -- The sessions of this name on the node are destroyed before the new one is made.
  unfoldable pub create_entry : SessionEntry → Bool → Exec String Store (String × ℤ)
  unfolding destroy_all find_sessions
  create_entry se no_checks = do
    node_name ← node_name
    node_sessions ← node node_name
    destroy_all (find_sessions se.name node_sessions)
    id ← if no_checks then create_no_checks se else create se
    pure (id, se.ttl)

  -- The session with its id, once consul has made it.
  unfoldable pub create_session : Session → Exec SessionError Store Session
  unfolding create_entry
  create_session s =
      if s.destroyed then raise already_destroyed else if not (s.id == "") then pure s else (do
        created ←
            with_error consul
              (create_entry (record { id = ""; name = s.name; ttl = s.ttl }) s.no_checks)
        pure (record s { id = created.0 }))

  unfoldable pub recreate : Session → Exec SessionError Store Session
  unfolding create_session
  recreate s = create_session (new_session s.name s.ttl s.no_checks)

  -- LockOpts and Lock, and the test of the channel.
  lock_session : String → String → Session → Exec SessionError Store (Unit {0})
  unfolding convert_error
  lock_session key value s = do
    granted ← with_error (λ e. convert_error (consul e)) (client.lock (lock_options s key value))
    if granted then pure tt else raise cancelled

  -- The session keeps the id that it was given, whatever becomes of its lock.
  after_create :
      String
      → String
      → Result SessionError Session × Store
      → Exec SessionError (Session × Store) (Unit {0})
  unfolding lock_session
  after_create key value (ok s, st) _ =
      ((lock_session key value s st).0, (s, (lock_session key value s st).1))
  after_create key value (err e, st) (s, _) = (err e, (s, st))

  -- Up to the start of their goroutines. The state is the session, and what consul holds.
  unfoldable pub acquire_lock : String → String → Exec SessionError (Session × Store) (Unit {0})
  unfolding after_create create_session
  acquire_lock key value (s, st) = after_create key value (create_session s st) (s, st)

  unfoldable pub set_presence : String → String → Exec SessionError (Session × Store) (Unit {0})
  unfolding after_create create_session
  set_presence key value (s, st) = after_create key value (create_session s st) (s, st)
