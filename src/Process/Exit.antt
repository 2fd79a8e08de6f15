-- ===== src/Process/Exit.antt =====
-- The end of the process of cmd/locket/main.go: a handler asks for it on exitCh, and the goroutine that
-- `main` starts once the group of runners is ready interrupts the group. A call whose handler panics
-- ends the process otherwise, and is no step.
pub mod Interrupts
use locket.Prelude.{
  ℕ, suc, ◌≡◌, Bool, true, false, Option, none, some, Outcome, returned, if◌then◌else◌, is_none,
}
use locket.Models.{Error}
use locket.Db.{LockDb}
use locket.Handlers.{Server, Request}
use locket.Handlers.Exclusion.{handle}

-- The goroutine: `main` is still in ifrit.Invoke, it receives or has received, it has signalled.
pub data Waiter : Type 0 where
  not_started running signalled : Waiter

pub record Process (db : LockDb) : Type 0 where
  pub server : Server db
  pub waiter : Waiter
  -- the signals that the goroutine has sent to the group
  pub interrupts : ℕ
  -- the exit code, once the group has exited
  pub exit_code : Option ℕ

abbrev pub initial : {db : LockDb} → Server db → Process db
initial s = record {
  server = record s { receiver_waits = false; exit_requested = false };
  waiter = not_started;
  interrupts = 0;
  exit_code = none;
}

-- monitor.Wait gives the group's error, nil if it was interrupted in time.
abbrev pub code_of : {A : Type 0} → Option A → ℕ
code_of e = if is_none e then 0 else 1

pub data Step {db : LockDb} : Process db → Process db → Type 0 where
  -- The server answers as soon as it is ready, also while the rest of the group starts.
  serve :
      {p : Process db} (req : Request) (s : Server db)
      → p.exit_code ≡ none
      → handle req p.server ≡ returned s
      → Step p (record p { server = s })
  start_waiter :
      {p : Process db}
      → p.exit_code ≡ none
      → p.waiter ≡ not_started
      → Step p (record p { waiter = running; server = record (p.server) { receiver_waits = true } })
  interrupt :
      {p : Process db}
      → p.exit_code ≡ none
      → p.waiter ≡ running
      → p.server.exit_requested ≡ true
      → Step p (record p { waiter = signalled; interrupts = suc p.interrupts })
  group_exits :
      {p : Process db} (e : Option Error)
      → p.exit_code ≡ none
      → Step p (record p { exit_code = some (code_of e) })

pub data Reach {db : LockDb} (p : Process db) : Process db → Type 0 where
  here : Reach p p
  next : {q r : Process db} → Reach p q → Step q r → Reach p r
