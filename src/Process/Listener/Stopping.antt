-- ===== src/Process/Listener/Stopping.antt =====
-- What the runner of the server has done when it returns, and what it leaves.
use locket.Prelude.{String, ◌≡◌, ◌≢◌, refl, ◌⊎◌, Option, none, some, arith, Bool, true, false}
use locket.Process.Listener.{
  Cause, signal, served, Phase, starting, spawned, selecting, stopping, returned, Goroutine,
  not_started, finished, sending, GrpcServerRunner, initial, Step, listen_fails, listens,
  close_ready, serve_returns, signalled, receive_error, stops, Reach, here, next,
}

-- The error that `Run` gives, by what ended its wait.
abbrev pub Gives : Option Cause → Option String → Type 0
Gives none e = ⊥
Gives (some signal) e = e ≡ none
Gives (some (served x)) e = e ≡ x

abbrev pub is_served : Option Cause → Bool
is_served (some (served e)) = true
is_served _ = false

abbrev pub is_finished : Goroutine → Bool
is_finished finished = true
is_finished _ = false

-- What the phase says of the rest of the state.
abbrev pub Phased : Phase → GrpcServerRunner → Type 0
Phased starting s =
    (s.goroutine ≡ not_started) × (s.ready_closes ≡ 0) × (s.graceful_stops ≡ 0) × (s.cause ≡ none)
Phased spawned s =
    (s.goroutine ≢ not_started) × (s.ready_closes ≡ 0) × (s.graceful_stops ≡ 0) × (s.cause ≡ none)
Phased selecting s =
    (s.goroutine ≢ not_started) × (s.ready_closes ≡ 1) × (s.graceful_stops ≡ 0) × (s.cause ≡ none)
Phased (stopping c) s = (s.ready_closes ≡ 1) × (s.graceful_stops ≡ 0) × (s.cause ≡ some c)
Phased (returned e) s =
    ((s.cause ≡ none)
      × (e ≢ none)
      × (s.goroutine ≡ not_started)
      × (s.ready_closes ≡ 0)
      × (s.graceful_stops ≡ 0))
    ⊎ (Gives s.cause e × (s.ready_closes ≡ 1) × (s.graceful_stops ≡ 1))

pub record IsSound (s : GrpcServerRunner) : Type 0 where
  pub phased : Phased s.phase s
  -- The goroutine ends exactly if `Run` has received what Serve returned.
  pub ends : is_finished s.goroutine ≡ is_served s.cause

initial-IsSound : IsSound initial
initial-IsSound = ground arith

Step-IsSound : {s t : GrpcServerRunner} → Step s t → IsSound s → IsSound t
Step-IsSound (listen_fails e p) v = ground arith
Step-IsSound (listens p) v = ground arith
Step-IsSound (close_ready p) v = ground arith
Step-IsSound {s} (serve_returns e p) v = go s.phase refl
  where
    go : (phase : Phase) → s.phase ≡ phase → IsSound (record s { goroutine = sending e })
    go starting q = ground arith
    go spawned q = ground arith
    go selecting q = ground arith
    go (stopping c) q = ground arith
    go (returned x) q = ground arith
Step-IsSound (signalled p) v = ground arith
Step-IsSound (receive_error e p g) v = ground arith
Step-IsSound (stops signal p) v = ground arith
Step-IsSound (stops (served e) p) v = ground arith

-- However the goroutine that serves and `Run` are interleaved: when `Run` has returned, either nothing
-- ended a wait of it, and it gives an error, and has started no goroutine, closed no `ready` and stopped no server;
-- or it was ready once, has stopped the server gracefully once, and gives what Serve returned, if that
-- ended its wait, and nil after a signal. Before that, `ready` is closed once from the select on and
-- never earlier, and nothing is stopped. The goroutine ends exactly if what Serve returned ended the
-- wait; so after a signal it never ends, since nobody receives what it sends.
pub stops_once : {s : GrpcServerRunner} → Reach s → IsSound s
stops_once here = initial-IsSound
stops_once (next r st) = Step-IsSound st (stops_once r)
