-- ===== src/Runner/History.antt =====
-- What a runner has done after any events.
use locket.Prelude.{
  suc, ◌+◌, ◌++◌, ap, ◌∙◌, ◌≡◌, refl, Bool, true, false, ◌||◌, Option, none, some, List, [], ◌∷◌,
  map, if◌then◌else◌, arith, is_none, length, ◌&&◌, sym, Bool-cases, inl, inr,
}
use locket.Models.{Error}
use locket.Runner.{
  LockRunner, Event, signal, retry, Progress, running, exited, start, step, run, continue,
}

-- The runner is ready once it has held the lock, and has closed `ready` once if it is ready.
pub record IsSound (l : LockRunner) : Type 0 where
  pub ready_after_lock : l.acquired ≡ true → l.is_ready ≡ true
  pub closes_once : l.ready_closes ≡ (if l.is_ready then 1 else 0)

pub start-IsSound :
    (answer : Option Error) (l : LockRunner)
    → l.is_ready ≡ false
    → l.acquired ≡ false
    → l.ready_closes ≡ 0
    → IsSound (start answer l)
unfolding start
start-IsSound none l a b c = ground arith
start-IsSound (some e) l a b c = ground arith

-- Whether the last answer, or the state before it, has the lock; whether any answer granted it.
abbrev pub last_granted : Bool → List (Option Error) → Bool
last_granted b [] = b
last_granted b (a ∷ answers) = last_granted (is_none a) answers

abbrev pub ever_granted : Bool → List (Option Error) → Bool
ever_granted b [] = b
ever_granted b (a ∷ answers) = ever_granted (b || is_none a) answers

-- A presence runner after one answer, and after several.
abbrev after_answer : Option Error → LockRunner → LockRunner
after_answer a l = record l {
  acquired = is_none a;
  is_ready = l.is_ready || is_none a;
  ready_closes = if l.is_ready || is_none a then 1 else 0;
  locks_sent = suc l.locks_sent;
}

abbrev pub after_answers : List (Option Error) → LockRunner → LockRunner
after_answers answers l = record l {
  acquired = last_granted l.acquired answers;
  is_ready = ever_granted l.is_ready answers;
  ready_closes = if ever_granted l.is_ready answers then 1 else 0;
  locks_sent = l.locks_sent + length answers;
}

step_presence :
    (a : Option Error) (l : LockRunner)
    → IsSound l
    → l.exit_on_lost_lock ≡ false
    → step (retry a) l ≡ running (after_answer a l)
unfolding step
step_presence none l v h = ground arith
step_presence (some e) l v h = ground arith

after_answer-IsSound :
    (a : Option Error) (l : LockRunner)
    → IsSound l
    → l.exit_on_lost_lock ≡ false
    → IsSound (after_answer a l)
after_answer-IsSound a l v h = ground arith

-- A presence runner in a sound state that gets no signal runs on, whatever the service answers to its
-- retries: it holds the presence exactly if the last answer granted it, is ready exactly if it was or
-- some answer granted it, has then closed `ready` once, and has sent one Lock for each retry.
pub presence_runs_on :
    (answers : List (Option Error)) (l : LockRunner)
    → IsSound l
    → l.exit_on_lost_lock ≡ false
    → run (map retry answers) l ≡ running (after_answers answers l)
unfolding run
presence_runs_on [] l v h = ground (arith, v.closes_once)
presence_runs_on (a ∷ answers) l v h =
    rw (step_presence a l v h, continue)
      (presence_runs_on answers (after_answer a l) (after_answer-IsSound a l v h) h
        ∙ ap (λ n. running (record (after_answers (a ∷ answers) l) { locks_sent = n }))
            (omega arith))

-- The error with which a lock is lost: the first after an answer that granted it, or from the start if
-- it was held then.
abbrev pub loss : Bool → List (Option Error) → Option Error
loss held [] = none
loss held (none ∷ answers) = loss true answers
loss true (some e ∷ answers) = some e
loss false (some e ∷ answers) = loss false answers

-- The runner that was `l` has exited: with the error given, after no Release, or after one and with
-- nil. It has closed `ready` once, if it was ready or an answer granted the lock.
pub record Exits (answers : List (Option Error)) (e : Option Error) (l l' : LockRunner)
    (e' : Option Error) : Type 0 where
  pub result : e' ≡ e
  pub released : l'.releases_sent ≡ l.releases_sent + (if is_none e then 1 else 0)
  pub closes_once : l'.ready_closes ≡ (if ever_granted l.is_ready answers then 1 else 0)

abbrev pub ExitsWith : List (Option Error) → Option Error → LockRunner → Progress → Type 0
ExitsWith answers e l (running l') = ⊥
ExitsWith answers e l (exited l' e') = Exits answers e l l' e'

ever_granted-true : (answers : List (Option Error)) → ever_granted true answers ≡ true
ever_granted-true [] = refl
ever_granted-true (a ∷ answers) = ever_granted-true answers

-- The error with which the runner gives up.
abbrev pub exit_error : Bool → Bool → List (Option Error) → Option Error
exit_error exits_on_loss held answers = if exits_on_loss then loss held answers else none

abbrev granted : LockRunner → LockRunner
granted l = record l {
  acquired = true;
  is_ready = true;
  ready_closes = 1;
  locks_sent = suc l.locks_sent;
}

abbrev refused : LockRunner → LockRunner
refused l = record l { acquired = false; locks_sent = suc l.locks_sent }

granted-IsSound : (l : LockRunner) → IsSound (granted l)
granted-IsSound l = ground arith

refused-IsSound : (l : LockRunner) → IsSound l → IsSound (refused l)
refused-IsSound l v = ground arith

step-granted : (l : LockRunner) → IsSound l → step (retry none) l ≡ running (granted l)
unfolding step
step-granted l v = ground arith

step-refused :
    (e : Error) (l : LockRunner)
    → (l.exit_on_lost_lock && l.acquired) ≡ false
    → step (retry (some e)) l ≡ running (refused l)
unfolding step
step-refused e l h = ground arith

step-loses :
    (e : Error) (l : LockRunner)
    → (l.exit_on_lost_lock && l.acquired) ≡ true
    → step (retry (some e)) l ≡ exited (record l { locks_sent = suc l.locks_sent }) (some e)
unfolding step
step-loses e l h = ground arith

exit_error_refused :
    (exits held : Bool) (e : Error) (answers : List (Option Error))
    → (exits && held) ≡ false
    → exit_error exits held (some e ∷ answers) ≡ exit_error exits false answers
exit_error_refused true true e answers h = cc
exit_error_refused true false e answers h = refl
exit_error_refused false held e answers h = refl

exit_error_lost :
    (exits held : Bool) (e : Error) (answers : List (Option Error))
    → (exits && held) ≡ true
    → exit_error exits held (some e ∷ answers) ≡ some e
exit_error_lost true true e answers h = refl
exit_error_lost true false e answers h = cc
exit_error_lost false held e answers h = cc

exit_error_nil : (exits held : Bool) → exit_error exits held [] ≡ none
exit_error_nil true held = refl
exit_error_nil false held = refl

ever_granted_step :
    (ready : Bool) (a : Option Error) (answers : List (Option Error))
    → ready ≡ true
    → ever_granted ready (a ∷ answers) ≡ true
ever_granted_step ready a answers h = rw h (ever_granted-true answers)

ever_granted_refused :
    (ready : Bool) (e : Error) (answers : List (Option Error))
    → ever_granted ready answers ≡ ever_granted ready (some e ∷ answers)
ever_granted_refused true e answers = refl
ever_granted_refused false e answers = refl

ever_granted_granted :
    (ready : Bool) (answers : List (Option Error))
    → ever_granted true answers ≡ ever_granted ready (none ∷ answers)
ever_granted_granted true answers = refl
ever_granted_granted false answers = refl

-- The same outcome, from the runner before the step.
before_step :
    (old answers : List (Option Error)) (e x : Option Error) (l l₁ : LockRunner) (p : Progress)
    → l₁.releases_sent ≡ l.releases_sent
    → ever_granted l₁.is_ready answers ≡ ever_granted l.is_ready old
    → x ≡ e
    → ExitsWith answers e l₁ p
    → ExitsWith old x l p
before_step old answers e x l l₁ (running l') r g same h = h
before_step old answers e x l l₁ (exited l' e') r g same h = record {
  result = h.result ∙ sym same;
  released = ground (arith, h.released, r, same);
  closes_once = ground (arith, h.closes_once, g);
}

-- From a sound state, over any answers to its retries and then a signal: a lock runner exits at the
-- first refusal after it has held the lock, with that error and without a Release, whatever follows; if
-- there is none, and in any case if it is a presence runner, it goes on to the signal, sends one Release
-- and returns nil. Either has then closed `ready` once if it was ready or the lock was granted, and else
-- never.
pub run-Exits :
    (answers : List (Option Error)) (released : Option Error) (rest : List Event) (l : LockRunner)
    → IsSound l
    → ExitsWith answers
        (exit_error l.exit_on_lost_lock l.acquired answers)
        l
        (run (map retry answers ++ signal released ∷ rest) l)
unfolding run
run-Exits [] released rest l v =
    unfold step in
    record {
      result = sym (exit_error_nil l.exit_on_lost_lock l.acquired);
      released = rw (exit_error_nil l.exit_on_lost_lock l.acquired) (omega arith);
      closes_once = v.closes_once;
    }
run-Exits (none ∷ answers) released rest l v =
    rw (step-granted l v, continue)
      (before_step (none ∷ answers) answers _ _ l (granted l) _ refl
        (ever_granted_granted l.is_ready answers) refl
        (run-Exits answers released rest (granted l) (granted-IsSound l)))
run-Exits (some e ∷ answers) released rest l v =
    elim (Bool-cases (l.exit_on_lost_lock && l.acquired)) [
      | inl h ↦
          rw (step-loses e l h, continue)
            (record {
              result = sym (exit_error_lost l.exit_on_lost_lock l.acquired e answers h);
              released =
                  rw (exit_error_lost l.exit_on_lost_lock l.acquired e answers h) (omega arith);
              closes_once =
                  ground
                    (arith, v.closes_once, ever_granted_step l.is_ready (some e) answers, v, h);
            })
      | inr h ↦
          rw (step-refused e l h, continue)
            (before_step (some e ∷ answers) answers _ _ l (refused l) _ refl
              (ever_granted_refused l.is_ready e answers)
              (exit_error_refused l.exit_on_lost_lock l.acquired e answers h)
              (run-Exits answers released rest (refused l) (refused-IsSound l v)))
    ]
