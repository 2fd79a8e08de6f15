-- ===== src/Joint/Startup.antt =====
-- What a timeout runner does over any events.
use locket.Prelude.{
  ℕ, suc, ◌+◌, ◌≡◌, ◌∙◌, refl, Bool, true, false, ◌&&◌, not, if◌then◌else◌, Option, none, some,
  List, [], ◌∷◌, ◌++◌, map, arith,
}
use locket.Joint.{
  Event, signalled, timed_out, member_ready, member_exited, RunError, failed_to_start,
  TimeoutRunner, Progress, waiting, serving, finished, run, step,
}

-- The wait ends without an error: the first event but signals is that the member is ready, or its exit
-- without an error.
abbrev pub waits_well : List Event → Bool
waits_well [] = false
waits_well (signalled sig ∷ events) = waits_well events
waits_well (member_ready ∷ events) = true
waits_well (member_exited none ∷ events) = true
waits_well (member_exited (some e) ∷ events) = false
waits_well (timed_out ∷ events) = false

abbrev pub closes : Progress → ℕ
closes (waiting t) = t.ready_closes
closes (serving t) = t.ready_closes
closes (finished t e) = t.ready_closes

abbrev pub returns_nil : Progress → Bool
returns_nil (finished t none) = true
returns_nil _ = false

-- The runner after the events, which it began with `n` closes of `ready`.
record Closed (n : ℕ) (good : Bool) (p : Progress) : Type 0 where
  count : closes p ≡ n + (if good then 1 else 0)
  ready_first : returns_nil p ≡ true → good ≡ true

finished-Closed :
    (events : List Event) (t : TimeoutRunner) (e : RunError)
    → Closed t.ready_closes false (run events (finished t (some e)))
unfolding run step
finished-Closed [] t e = ground arith
finished-Closed (event ∷ events) t e = finished-Closed events t e

finished_closes :
    (events : List Event) (t : TimeoutRunner) (e : Option RunError)
    → closes (run events (finished t e)) ≡ t.ready_closes
unfolding run step
finished_closes [] t e = refl
finished_closes (event ∷ events) t e = finished_closes events t e

serving_closes :
    (events : List Event) (t : TimeoutRunner) → closes (run events (serving t)) ≡ t.ready_closes
unfolding run step
serving_closes [] t = refl
serving_closes (member_exited e ∷ events) t = finished_closes events t e
serving_closes (signalled sig ∷ events) t =
    serving_closes events (record t { forwarded = sig ∷ t.forwarded })
serving_closes (timed_out ∷ events) t = serving_closes events t
serving_closes (member_ready ∷ events) t = serving_closes events t

served-Closed :
    (events : List Event) (t : TimeoutRunner)
    → Closed t.ready_closes true
        (run events (serving (record t { ready_closes = suc t.ready_closes })))
served-Closed events t = record {
  count = serving_closes events (record t { ready_closes = suc t.ready_closes }) ∙ omega arith;
  ready_first = λ _. refl;
}

waiting-Closed :
    (events : List Event) (t : TimeoutRunner)
    → Closed t.ready_closes (waits_well events) (run events (waiting t))
unfolding run step
waiting-Closed [] t = ground arith
waiting-Closed (signalled sig ∷ events) t =
    waiting-Closed events (record t { forwarded = sig ∷ t.forwarded })
waiting-Closed (member_ready ∷ events) t = served-Closed events t
waiting-Closed (member_exited none ∷ events) t = served-Closed events t
waiting-Closed (member_exited (some e) ∷ events) t = finished-Closed events t e
waiting-Closed (timed_out ∷ events) t = finished-Closed events t (failed_to_start t.name)

-- Over any events a timeout runner that waits closes `ready` exactly once more if the first event but
-- signals is that the member is ready, or its exit without an error, and never otherwise, also where
-- it returns an error; it returns nil in the first case only.
pub ready_once :
    (events : List Event) (t : TimeoutRunner)
    → (closes (run events (waiting t)) ≡ t.ready_closes + (if waits_well events then 1 else 0))
      × ((returns_nil (run events (waiting t)) && not (waits_well events)) ≡ false)
ready_once events t = let c = waiting-Closed events t in (c.count, ground (arith, c.ready_first))

abbrev pub newest_first : List ℕ → List ℕ → List ℕ
newest_first [] sent = sent
newest_first (sig ∷ signals) sent = newest_first signals (sig ∷ sent)

finished_stays :
    (events : List Event) (t : TimeoutRunner) (e : Option RunError)
    → run events (finished t e) ≡ finished t e
unfolding run step
finished_stays [] t e = refl
finished_stays (event ∷ events) t e = finished_stays events t e

-- The time is over.
timeout_abandons_member :
    (signals : List ℕ) (rest : List Event) (t : TimeoutRunner)
    → run (map signalled signals ++ timed_out ∷ rest) (waiting t)
      ≡ finished
          (record t { forwarded = newest_first signals t.forwarded })
          (some (failed_to_start t.name))
unfolding run step
timeout_abandons_member [] rest t = finished_stays rest t (some (failed_to_start t.name))
timeout_abandons_member (sig ∷ signals) rest t =
    timeout_abandons_member signals rest (record t { forwarded = sig ∷ t.forwarded })

-- The member is over.
clean_exit_closes_ready :
    (signals : List ℕ) (t : TimeoutRunner)
    → run (map signalled signals ++ member_exited none ∷ member_exited none ∷ []) (waiting t)
      ≡ finished
          (record t {
            ready_closes = suc t.ready_closes;
            forwarded = newest_first signals t.forwarded;
          })
          none
unfolding run step
clean_exit_closes_ready [] t = refl
clean_exit_closes_ready (sig ∷ signals) t =
    clean_exit_closes_ready signals (record t { forwarded = sig ∷ t.forwarded })

-- A member that is not ready, after any signals, all of which the runner has passed on, in order. If
-- its time is over, the runner returns the error failed-to-start and has not closed `ready`; it sends
-- nothing to the member's process, which goes on, whatever happens later. If its process exits without
-- an error, the runner closes `ready` all the same, and then returns nil.
pub unready_member :
    (signals : List ℕ) (rest : List Event) (t : TimeoutRunner)
    → (run (map signalled signals ++ timed_out ∷ rest) (waiting t)
        ≡ finished
            (record t { forwarded = newest_first signals t.forwarded })
            (some (failed_to_start t.name)))
      × (run (map signalled signals ++ member_exited none ∷ member_exited none ∷ []) (waiting t)
          ≡ finished
              (record t {
                ready_closes = suc t.ready_closes;
                forwarded = newest_first signals t.forwarded;
              })
              none)
unready_member signals rest t =
    (timeout_abandons_member signals rest t, clean_exit_closes_ready signals t)
