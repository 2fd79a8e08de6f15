-- ===== src/Process/Listener.antt =====
-- grpcserver/server.go: the runner that serves the handlers, and its goroutine. The listener, the
-- server of gRPC and its graceful stop are outside this repository: what they answer is a step's
-- argument. errCh has no buffer, so a send and its receipt are one step.
pub mod Stopping
use locket.Prelude.{ℕ, suc, String, ◌≡◌, Option, none, some}

-- What `Run` leaves its select by: a signal, or what Serve returned.
pub data Cause : Type 0 where
  signal : Cause
  served : Option String → Cause

pub data Phase : Type 0 where
  starting spawned selecting : Phase
  stopping : Cause → Phase
  returned : Option String → Phase

-- The goroutine: in Serve, at its send of what Serve returned, done.
pub data Goroutine : Type 0 where
  not_started serving finished : Goroutine
  sending : Option String → Goroutine

pub record GrpcServerRunner : Type 0 where
  pub phase : Phase
  pub goroutine : Goroutine
  pub ready_closes : ℕ
  pub graceful_stops : ℕ
  -- by what the select was left
  pub cause : Option Cause

abbrev pub initial : GrpcServerRunner
initial = record {
  phase = starting;
  goroutine = not_started;
  ready_closes = 0;
  graceful_stops = 0;
  cause = none;
}

abbrev pub error_of_cause : Cause → Option String
error_of_cause signal = none
error_of_cause (served e) = e

pub data Step : GrpcServerRunner → GrpcServerRunner → Type 0 where
  listen_fails :
      {s : GrpcServerRunner} (e : String)
      → s.phase ≡ starting
      → Step s (record s { phase = returned (some e) })
  listens :
      {s : GrpcServerRunner}
      → s.phase ≡ starting
      → Step s (record s { phase = spawned; goroutine = serving })
  close_ready :
      {s : GrpcServerRunner}
      → s.phase ≡ spawned
      → Step s (record s { phase = selecting; ready_closes = suc s.ready_closes })
  serve_returns :
      {s : GrpcServerRunner} (e : Option String)
      → s.goroutine ≡ serving
      → Step s (record s { goroutine = sending e })
  signalled :
      {s : GrpcServerRunner}
      → s.phase ≡ selecting
      → Step s (record s { phase = stopping signal; cause = some signal })
  receive_error :
      {s : GrpcServerRunner} (e : Option String)
      → s.phase ≡ selecting
      → s.goroutine ≡ sending e
      → Step s
          (record s { phase = stopping (served e); goroutine = finished; cause = some (served e) })
  stops :
      {s : GrpcServerRunner} (c : Cause)
      → s.phase ≡ stopping c
      → Step s
          (record s { phase = returned (error_of_cause c); graceful_stops = suc s.graceful_stops })

pub data Reach : GrpcServerRunner → Type 0 where
  here : Reach initial
  next : {s t : GrpcServerRunner} → Reach s → Step s t → Reach t
