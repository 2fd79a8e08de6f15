-- ===== src/Consul/Registration/History.antt =====
-- What the registration runner has asked of the agent, whatever happened.
use Prim.Native.String.{◌++◌}
use locket.Prelude.{
  ℕ, suc, Bool, ◌==◌, ap, sym, ◌∙◌, ◌+◌, ◌-◌, ◌≡◌, refl, String, true, false, Option, none, some,
  List, [], ◌∷◌, if◌then◌else◌, arith, subst, ◌⊎◌, inl, inr, Result, ok, err, Bool-cases,
}
use locket.Prelude.Int64.{ℤ, pos, eq_ℤ}
use locket.Consul.Registration.{
  Registration, RunError, Call, service_register, pass_ttl, service_deregister, Runner, Event,
  signal, timer_fired, registered, Progress, starting, polling, waiting, returned, unregister_id,
  check_id, calculate_poll_interval, validate_registration, begin, serve, finish, step, is_enabled,
  start, interval_of, Reach, started, next,
}

module _ (reg : Registration) (interval : ℤ) where
  -- The name that consul gives to the check of the service.
  abbrev pub own_check : String
  own_check = "service:" ++ (if reg.id == "" then reg.name else reg.id)

  check_id-eq-own_check : check_id reg ≡ own_check
  unfolding check_id
  check_id-eq-own_check = ground arith

  -- Calls that register the service and pass its own check.
  abbrev pub KeepsUp : List Call → Type 0
  KeepsUp [] = Unit
  KeepsUp (service_register ∷ calls) = KeepsUp calls
  KeepsUp (pass_ttl id ∷ calls) = (id ≡ own_check) × KeepsUp calls
  KeepsUp (service_deregister id ∷ calls) = ⊥

  -- The id that is given to ServiceDeregister: the raw id where there is no heartbeat.
  abbrev pub last_id : String
  last_id = if eq_ℤ interval (pos 0) then reg.id else if reg.id == "" then reg.name else reg.id

  polling_id : eq_ℤ interval (pos 0) ≡ false → unregister_id reg ≡ last_id
  unfolding unregister_id
  polling_id h = rw h

  -- Before it is ready exactly one registration is under way or waits for its timer. Nothing
  -- was asked for but registrations and passes, until the end.
  abbrev pub IsAccounted : Progress → Type 0
  IsAccounted (starting r) =
      (r.registering + (if r.timer_armed then 1 else 0) ≡ 1)
      × (r.ready_closes ≡ 0)
      × KeepsUp r.calls
  IsAccounted (polling r) =
      (eq_ℤ interval (pos 0) ≡ false)
      × (r.timer_armed ≡ true)
      × (r.ready_closes ≡ 1)
      × KeepsUp r.calls
  IsAccounted (waiting r) = (eq_ℤ interval (pos 0) ≡ true) × (r.ready_closes ≡ 1) × KeepsUp r.calls
  IsAccounted (returned r e) =
      ((r.ready_closes ≡ 0) × KeepsUp r.calls)
      ⊎ ((r.ready_closes ≡ 1)
          × ((before : List Call) × (r.calls ≡ service_deregister last_id ∷ before)
              × KeepsUp before))

  finish-IsAccounted :
      (answer : Option String) (r : Runner) (before : List Call)
      → r.ready_closes ≡ 1
      → r.calls ≡ service_deregister last_id ∷ before
      → KeepsUp before
      → IsAccounted (finish answer r)
  unfolding finish
  finish-IsAccounted none r before one e k = inr (one, (before, e, k))
  finish-IsAccounted (some x) r before one e k = inr (one, (before, e, k))

  serve-IsAccounted :
      (r : Runner) → r.ready_closes ≡ 0 → KeepsUp r.calls → IsAccounted (serve reg interval r)
  unfolding serve
  serve-IsAccounted r z k = elim (Bool-cases (eq_ℤ interval (pos 0))) [
    | inl e ↦ rw e (e, ground arith, (check_id-eq-own_check, k))
    | inr e ↦ rw e (e, refl, ground arith, (check_id-eq-own_check, k))
  ]

  step-IsAccounted :
      (event : Event) (p : Progress)
      → is_enabled event p ≡ true
      → IsAccounted p
      → IsAccounted (step reg interval event p)
  unfolding step
  step-IsAccounted (signal answer) (starting r) h (a, b, c) = inl (b, c)
  step-IsAccounted (timer_fired answer) (starting r) h (a, b, c) = (ground arith, b, c)
  step-IsAccounted (registered (some e)) (starting r) h (a, b, c) = (ground arith, b, c)
  step-IsAccounted (registered none) (starting r) h (a, b, c) =
      serve-IsAccounted (record r { registering = r.registering - 1 }) b c
  step-IsAccounted (signal answer) (waiting r) h (a, b, c) =
      finish-IsAccounted answer _ r.calls b (ground arith) c
  step-IsAccounted (signal answer) (polling r) h (a, b, c, d) =
      finish-IsAccounted answer _ r.calls c
        (ap (λ id. service_deregister id ∷ r.calls) (polling_id a)) d
  step-IsAccounted (timer_fired none) (polling r) h (a, b, c, d) =
      (a, refl, c, (check_id-eq-own_check, d))
  step-IsAccounted (timer_fired (some e)) (polling r) h (a, b, c, d) =
      (a, refl, c, (check_id-eq-own_check, d))
  step-IsAccounted (registered answer) (polling r) h (a, b, c, d) = (a, refl, c, d)
  step-IsAccounted event (returned r e) h v = v
  step-IsAccounted _ p h v = cc

begin-IsAccounted :
    (reg : Registration) (e : Option RunError) (interval : Result String ℤ)
    → IsAccounted reg (interval_of interval) (begin e interval)
unfolding begin
begin-IsAccounted reg (some e) interval = inl (refl, tt)
begin-IsAccounted reg none (err e) = inl (refl, tt)
begin-IsAccounted reg none (ok interval) = (omega arith, refl, tt)

-- How often the check was passed.
abbrev pub passes : List Call → ℕ
passes [] = 0
passes (pass_ttl id ∷ calls) = suc (passes calls)
passes (_ ∷ calls) = passes calls

abbrev pub runner_of : Progress → Runner
runner_of (starting r) = r
runner_of (polling r) = r
runner_of (waiting r) = r
runner_of (returned r e) = r

-- The check is due: at the registration that goes through first, and at each tick from then on.
abbrev pub is_due : Event → Progress → Bool
is_due (registered none) (starting r) = true
is_due (timer_fired answer) (polling r) = true
is_due _ p = false

module _ {parse_duration : String → Result String ℤ} {reg : Registration} where
  -- How often it was due in a run.
  abbrev pub due : {p : Progress} → Reach parse_duration reg p → ℕ
  due started = 0
  due (next {p} event r h e) = due r + (if is_due event p then 1 else 0)

passes-finish : (answer : Option String) (r : Runner) → runner_of (finish answer r) ≡ r
unfolding finish
passes-finish none r = refl
passes-finish (some e) r = refl

passes-serve :
    (reg : Registration) (interval : ℤ) (r : Runner)
    → passes (runner_of (serve reg interval r)).calls ≡ suc (passes r.calls)
unfolding serve
passes-serve reg interval r = elim (Bool-cases (eq_ℤ interval (pos 0))) [
  | inl e ↦ rw e
  | inr e ↦ rw e
]

passes-step :
    (reg : Registration) (interval : ℤ) (event : Event) (p : Progress)
    → passes (runner_of (step reg interval event p)).calls
      ≡ passes (runner_of p).calls + (if is_due event p then 1 else 0)
unfolding step
passes-step reg interval (signal answer) (starting r) = omega arith
passes-step reg interval (timer_fired answer) (starting r) = omega arith
passes-step reg interval (registered (some e)) (starting r) = omega arith
passes-step reg interval (registered none) (starting r) =
    passes-serve reg interval (record r { registering = r.registering - 1 }) ∙ omega arith
passes-step reg interval (signal answer) (waiting r) =
    ap (λ (s : Runner). passes s.calls) (passes-finish answer _) ∙ omega arith
passes-step reg interval (timer_fired answer) (waiting r) = omega arith
passes-step reg interval (registered none) (waiting r) = omega arith
passes-step reg interval (registered (some e)) (waiting r) = omega arith
passes-step reg interval (signal answer) (polling r) =
    ap (λ (s : Runner). passes s.calls) (passes-finish answer _) ∙ omega arith
passes-step reg interval (timer_fired none) (polling r) = omega arith
passes-step reg interval (timer_fired (some e)) (polling r) = omega arith
passes-step reg interval (registered none) (polling r) = omega arith
passes-step reg interval (registered (some e)) (polling r) = omega arith
passes-step reg interval (signal answer) (returned r e) = omega arith
passes-step reg interval (timer_fired answer) (returned r e) = omega arith
passes-step reg interval (registered none) (returned r e) = omega arith
passes-step reg interval (registered (some x)) (returned r e) = omega arith

passes-begin :
    (e : Option RunError) (interval : Result String ℤ)
    → passes (runner_of (begin e interval)).calls ≡ 0
unfolding begin
passes-begin (some e) interval = refl
passes-begin none (err e) = refl
passes-begin none (ok interval) = refl

module _ (parse_duration : String → Result String ℤ) (reg : Registration) where
  abbrev interval : ℤ
  interval = interval_of (calculate_poll_interval parse_duration reg)

  accounted : {p : Progress} → Reach parse_duration reg p → IsAccounted reg interval p
  unfolding start
  accounted started =
      begin-IsAccounted reg (validate_registration reg) (calculate_poll_interval parse_duration reg)
  accounted (next {p} event r h e) =
      subst (IsAccounted reg interval) e (step-IsAccounted reg interval event p h (accounted r))

  passes-due : {p : Progress} (r : Reach parse_duration reg p) → passes (runner_of p).calls ≡ due r
  unfolding start
  passes-due started =
      passes-begin (validate_registration reg) (calculate_poll_interval parse_duration reg)
  passes-due (next {p} event r h e) =
      ap (λ q. passes (runner_of q).calls) (sym e)
      ∙ passes-step reg interval event p
      ∙ ap (λ n. n + (if is_due event p then 1 else 0)) (passes-due r)

-- Whatever the registration runner receives, for every registration and poll interval: until the
-- service is registered exactly one registration is under way or waits for its timer; `ready` is closed
-- once, after that. The check that is passed is that of the service itself, and it is passed as often as
-- it was due: when the service was first registered, and at each tick of the timer from then on. A run
-- that ends earlier has asked for no deregistration; one that ends later has asked for one, as its last
-- call, with the id or else the name of the service if it polls, and with the id alone, empty or not,
-- if it does not.
pub Reach-IsAccounted :
    (parse_duration : String → Result String ℤ) (reg : Registration) {p : Progress}
    (r : Reach parse_duration reg p)
    → IsAccounted reg (interval_of (calculate_poll_interval parse_duration reg)) p
      × (passes (runner_of p).calls ≡ due r)
Reach-IsAccounted parse_duration reg r =
    (accounted parse_duration reg r, passes-due parse_duration reg r)
