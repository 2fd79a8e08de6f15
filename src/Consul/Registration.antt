-- ===== src/Consul/Registration.antt =====
-- registration_runner.go: the runner that registers a service with the agent of consul and keeps its
-- health check passing. What its `select`s receive is an `Event`, with the answer of the call that the
-- case makes. time.ParseDuration is a parameter.
pub mod History
use Prim.Native.String.{◌++◌}
use locket.Prelude.{
  ℕ, suc, ◌-◌, ◌≡◌, String, Bool, true, false, Option, none, some, List, [], ◌∷◌, ◌==◌,
  if◌then◌else◌, ltb, Result, ok, err,
}
use locket.Prelude.Int64.{ℤ, pos, eq_ℤ}
use locket.Consul.Session.{quot_int64}

pub record Registration : Type 0 where
  pub id : String
  pub name : String
  -- the TTL of `Check`, if there is one, and the number of `Checks`
  pub check_ttl : Option String
  pub checks : ℕ

pub data RunError : Type 0 where
  checks_not_implemented : RunError
  agent : String → RunError

-- The calls of the agent.
pub data Call : Type 0 where
  service_register : Call
  pass_ttl service_deregister : String → Call

pub record Runner : Type 0 where
  -- the registrations whose answers have not been received
  pub registering : ℕ
  pub timer_armed : Bool
  pub ready_closes : ℕ
  -- newest first
  pub calls : List Call

pub data Event : Type 0 where
  -- with the answer of ServiceDeregister
  signal : Option String → Event
  -- with the answer of PassTTL
  timer_fired : Option String → Event
  registered : Option String → Event

pub data Progress : Type 0 where
  -- the loop of `Run`, pollUntilSignaled, and waitForSignal
  starting polling waiting : Runner → Progress
  returned : Runner → Option RunError → Progress

validate_registration : Registration → Option RunError
validate_registration r = if ltb 0 r.checks then some checks_not_implemented else none

half : Result String ℤ → Result String ℤ
half (ok ttl) = ok (quot_int64 ttl 2)
half (err e) = err e

-- A TTL of nil or of the empty text is none.
poll_interval : (String → Result String ℤ) → Option String → Result String ℤ
unfolding half
poll_interval parse_duration none = ok (pos 0)
poll_interval parse_duration (some ttl) =
    if ttl == "" then ok (pos 0) else half (parse_duration ttl)

unfoldable pub calculate_poll_interval : (String → Result String ℤ) → Registration → Result String ℤ
unfolding poll_interval
calculate_poll_interval parse_duration r = poll_interval parse_duration r.check_ttl

unfoldable pub unregister_id : Registration → String
unregister_id r = if r.id == "" then r.name else r.id

unfoldable pub check_id : Registration → String
check_id r = if r.id == "" then "service:" ++ r.name else "service:" ++ r.id

abbrev pub new_runner : Runner
new_runner = record { registering = 0; timer_armed = false; ready_closes = 0; calls = [] }

-- Before the first `select`, or at an early return.
begin : Option RunError → Result String ℤ → Progress
begin (some e) interval = returned new_runner (some e)
begin none (err e) = returned new_runner (some (agent e))
begin none (ok interval) = starting (record new_runner { timer_armed = true })

call : Call → Runner → Runner
call c r = record r { calls = c ∷ r.calls }

-- `go register()`
register : Runner → Runner
unfolding call
register r = record (call service_register r) { registering = suc r.registering }

-- A return with the answer of the agent.
finish : Option String → Runner → Progress
finish none r = returned r none
finish (some e) r = returned r (some (agent e))

-- After a registration that went through: the health check passes, `ready` is closed, and the runner
-- polls if it has an interval.
serve : Registration → ℤ → Runner → Progress
unfolding call
serve reg interval r =
    let ready = record (call (pass_ttl (check_id reg)) r) { ready_closes = suc r.ready_closes } in
    if eq_ℤ interval (pos 0)
    then waiting (record ready { timer_armed = false })
    else polling (record ready { timer_armed = true })

starting_step : Registration → ℤ → Event → Runner → Progress
unfolding register serve
starting_step reg interval (signal answer) r = returned r none
starting_step reg interval (timer_fired answer) r =
    starting (register (record r { timer_armed = false }))
starting_step reg interval (registered (some e)) r =
    starting (record r { registering = r.registering - 1; timer_armed = true })
starting_step reg interval (registered none) r =
    serve reg interval (record r { registering = r.registering - 1 })

-- waitForSignal
waiting_step : Registration → Event → Runner → Progress
unfolding call finish
waiting_step reg (signal answer) r = finish answer (call (service_deregister reg.id) r)
waiting_step reg _ r = waiting r

-- pollUntilSignaled
polling_step : Registration → Event → Runner → Progress
unfolding call register finish
polling_step reg (signal answer) r = finish answer (call (service_deregister (unregister_id reg)) r)
polling_step reg (timer_fired none) r =
    polling (record (call (pass_ttl (check_id reg)) r) { timer_armed = true })
polling_step reg (timer_fired (some e)) r =
    polling (record (register (call (pass_ttl (check_id reg)) r)) { timer_armed = true })
polling_step reg (registered answer) r =
    polling (record r { registering = r.registering - 1; timer_armed = true })

unfoldable pub step : Registration → ℤ → Event → Progress → Progress
unfolding starting_step waiting_step polling_step
step reg interval event (starting r) = starting_step reg interval event r
step reg interval event (polling r) = polling_step reg event r
step reg interval event (waiting r) = waiting_step reg event r
step reg interval event (returned r e) = returned r e

-- The channel of the event's case is selected on, and may have something to receive.
abbrev pub is_enabled : Event → Progress → Bool
is_enabled (signal answer) (returned r e) = false
is_enabled (signal answer) _ = true
is_enabled (timer_fired answer) (starting r) = r.timer_armed
is_enabled (timer_fired answer) (polling r) = r.timer_armed
is_enabled (registered answer) (starting r) = ltb 0 r.registering
is_enabled (registered answer) (polling r) = ltb 0 r.registering
is_enabled _ _ = false

unfoldable pub start : (String → Result String ℤ) → Registration → Progress
unfolding begin validate_registration calculate_poll_interval
start parse_duration reg =
    begin (validate_registration reg) (calculate_poll_interval parse_duration reg)

abbrev pub interval_of : Result String ℤ → ℤ
interval_of (ok interval) = interval
interval_of (err e) = pos 0

pub data Reach (parse_duration : String → Result String ℤ) (reg : Registration)
    : Progress → Type 0 where
  started : Reach parse_duration reg (start parse_duration reg)
  next :
      {p q : Progress} (event : Event)
      → Reach parse_duration reg p
      → is_enabled event p ≡ true
      → step reg (interval_of (calculate_poll_interval parse_duration reg)) event p ≡ q
      → Reach parse_duration reg q
