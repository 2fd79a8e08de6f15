-- ===== src/Process/Exit/Interrupts.antt =====
-- When the process interrupts itself.
use locket.Prelude.{
  suc, ◌≡◌, refl, Bool, true, false, not, ◌&&◌, ◌||◌, none, returned, panicked, if◌then◌else◌,
  arith,
}
use locket.Models.{LockRequest, ReleaseRequest, FetchRequest, FetchAllRequest}
use locket.Db.{LockDb}
use locket.Handlers.{
  Server, Request, Answer, lock, release, fetch, fetch_all, lock_request, release_request,
  fetch_request, fetch_all_request,
}
use locket.Prelude.Int64.{pos}
use locket.Handlers.Exclusion.{handle, state_of}
use locket.Handlers.Exiting.{reports_unrecoverable, IfAnswered, requests_exit}
use locket.Process.Exit.{
  Waiter, not_started, running, signalled, Process, initial, Step, serve, start_waiter, interrupt,
  group_exits, Reach, here, next,
}

-- `requests_exit` is about four calls at once; the other three do not matter.
abbrev locking : LockRequest
locking = record { resource = none; ttl_in_seconds = pos 0 }

abbrev releasing : ReleaseRequest
releasing = record { resource = none }

abbrev fetching : FetchRequest
fetching = record { key = "" }

abbrev listing : FetchAllRequest
listing = record { type = ""; type_code = pos 0 }

abbrev pub is_signalled : Waiter → Bool
is_signalled signalled = true
is_signalled _ = false

abbrev pub is_running : Waiter → Bool
is_running running = true
is_running _ = false

module _ {db : LockDb} where
  -- The call answers with an unrecoverable error.
  abbrev pub answer_reports : {A : Type 0} → Answer db A → Bool
  answer_reports panicked = false
  answer_reports (returned (r, s)) = reports_unrecoverable r

  abbrev pub reports : Request → Server db → Bool
  reports (lock_request req) s = answer_reports (lock req s)
  reports (release_request req) s = answer_reports (release req s)
  reports (fetch_request req) s = answer_reports (fetch req s)
  reports (fetch_all_request req) s = answer_reports (fetch_all req s)

  record Asks (b : Bool) (s s' : Server db) : Type 0 where
    exit_requested : s'.exit_requested ≡ (s.exit_requested || (s.receiver_waits && b))
    receiver_waits : s'.receiver_waits ≡ (s.receiver_waits && not b)

  answer-Asks :
      {A : Type 0} (s s' : Server db) (o : Answer db A)
      → IfAnswered s o
      → state_of o ≡ returned s'
      → Asks (answer_reports o) s s'
  answer-Asks s s' panicked v e = cc
  answer-Asks s s' (returned (r, s₁)) v e = ground (arith, e, v.exit_requested, v.receiver_waits)

  handle-Asks :
      (req : Request) (s s' : Server db) → handle req s ≡ returned s' → Asks (reports req s) s s'
  unfolding handle
  handle-Asks (lock_request req) s s' e =
      answer-Asks s s' (lock req s) (requests_exit s req releasing fetching listing).0 e
  handle-Asks (release_request req) s s' e =
      answer-Asks s s' (release req s) (requests_exit s locking req fetching listing).1 e
  handle-Asks (fetch_request req) s s' e =
      answer-Asks s s' (fetch req s) (requests_exit s locking releasing req listing).2 e
  handle-Asks (fetch_all_request req) s s' e =
      answer-Asks s s' (fetch_all req s) (requests_exit s locking releasing fetching req).3 e

  -- One interrupt is sent, by the goroutine, once a handler's request has reached it; it receives one
  -- request, and none before it runs.
  pub record IsSound (p : Process db) : Type 0 where
    pub once : p.interrupts ≡ (if is_signalled p.waiter then 1 else 0)
    pub asked : is_signalled p.waiter ≡ true → p.server.exit_requested ≡ true
    pub waits : p.server.receiver_waits ≡ (is_running p.waiter && not p.server.exit_requested)
    pub early : p.waiter ≡ not_started → p.server.exit_requested ≡ false

  initial-IsSound : (s : Server db) → IsSound (initial s)
  initial-IsSound s = ground arith

  Step-IsSound : {p q : Process db} → Step p q → IsSound p → IsSound q
  Step-IsSound {p} (serve req s n e) v = ground (arith, handle-Asks req p.server s e)
  Step-IsSound (start_waiter n w) v = ground arith
  Step-IsSound (interrupt n w a) v = ground arith
  Step-IsSound (group_exits e n) v = ground arith

  -- However calls, the start of the goroutine and the exit of the group are interleaved, the process
  -- interrupts its group at most once, and only after a call has asked for the exit while the goroutine
  -- received; the goroutine receives no second request, and no request counts as asked before it runs.
  pub interrupts_once : (s : Server db) {p : Process db} → Reach (initial s) p → IsSound p
  interrupts_once s here = initial-IsSound s
  interrupts_once s (next r st) = Step-IsSound st (interrupts_once s r)

  -- A call that answers with an unrecoverable error before the goroutine of `main` runs asks for
  -- nothing: whatever the state of the server was, there is a run in which that call is answered while
  -- the group still starts, the goroutine then receives, and the next step interrupts nothing.
  pub early_exit_is_lost :
      (s s' : Server db) (req : Request)
      → reports req (initial s).server ≡ true
      → handle req (initial s).server ≡ returned s'
      → (p : Process db) × Reach (initial s) p
        × (p.waiter ≡ running)
        × (p.server ≡ record s' { receiver_waits = true })
        × (p.server.exit_requested ≡ false)
        × ((q : Process db) → Step p q → q.interrupts ≡ 0)
  early_exit_is_lost s s' req b e = (
    record (initial s) { server = record s' { receiver_waits = true }; waiter = running },
    next (next here (serve req s' refl e)) (start_waiter refl refl),
    refl,
    refl,
    unasked,
    λ q st. unsent st refl unasked,
  )
    where
      unasked : s'.exit_requested ≡ false
      unasked = ground (arith, handle-Asks req (initial s).server s' e)

      unsent :
          {p q : Process db}
          → Step p q
          → p.interrupts ≡ 0
          → p.server.exit_requested ≡ false
          → q.interrupts ≡ 0
      unsent (serve req s n e) z u = z
      unsent (start_waiter n w) z u = z
      unsent (interrupt n w a) z u = absurd (ground (arith, a, u))
      unsent (group_exits e n) z u = z

  -- Once the goroutine receives, the first call that answers with an unrecoverable error is heard: from
  -- every state that the process reaches, unless the group has exited, the answer to the call is one
  -- step, which leaves the state of the server that the handler left, and the signal is a next one. Then
  -- the goroutine has signalled, the group is interrupted once, and was not before.
  pub late_exit_is_heard :
      (s : Server db) {p : Process db} (s' : Server db) (req : Request)
      → Reach (initial s) p
      → p.exit_code ≡ none
      → p.waiter ≡ running
      → reports req p.server ≡ true
      → handle req p.server ≡ returned s'
      → let answered = record p { server = s' } in
        let heard = record answered { waiter = signalled; interrupts = suc p.interrupts } in
        Step p answered
        × Step answered heard
        × Reach (initial s) heard
        × (p.interrupts ≡ 0)
        × (heard.interrupts ≡ 1)
  late_exit_is_heard s {p} s' req r n w b e = (
    serve req s' n e,
    interrupt n w asked,
    next (next r (serve req s' n e)) (interrupt n w asked),
    ground (arith, sound, w),
    ground (arith, sound, w),
  )
    where
      sound : IsSound p
      sound = interrupts_once s r

      asked : s'.exit_requested ≡ true
      asked = ground (arith, handle-Asks req p.server s' e, sound)
