-- ===== src/Consul/Watcher/Closing.antt =====
-- The end of a watch: DisappearanceWatcher.Run closes `stop` and then the channel to which the loop of
-- WatchForDisappearancesUnder may be about to send.
use locket.Prelude.{String, ◌≡◌, ◌≢◌, refl, Bool, true, false, List, []}

-- Where the loop's goroutine is.
pub data Loop : Type 0 where
  listing : Loop
  -- past the first select, with something to report
  reporting : List String → Loop
  -- waits in the second select
  blocked : List String → Loop
  finished panicked : Loop

pub data Runner : Type 0 where
  waiting signalled returned : Runner

pub record System : Type 0 where
  pub loop : Loop
  pub runner : Runner
  pub stop_closed : Bool
  pub chan_closed : Bool

abbrev pub initial : System
initial = record { loop = listing; runner = waiting; stop_closed = false; chan_closed = false }

-- `close(stop)` wakes the second select by its case `<-stop`, if it waits.
abbrev pub woken : Loop → Loop
woken (blocked missing) = finished
woken l = l

pub data Step (s : System) : System → Type 0 where
  nothing_missing : s.loop ≡ listing → s.stop_closed ≡ false → Step s s
  found_missing :
      (missing : List String)
      → missing ≢ []
      → s.loop ≡ listing
      → s.stop_closed ≡ false
      → Step s (record s { loop = reporting missing })
  stops : s.loop ≡ listing → s.stop_closed ≡ true → Step s (record s { loop = finished })
  -- the second select, with a receiver
  delivered :
      (missing : List String)
      → (s.loop ≡ reporting missing)
      → s.chan_closed ≡ false
      → Step s (record s { loop = listing })
  delivered_late :
      (missing : List String) → s.loop ≡ blocked missing → Step s (record s { loop = listing })
  -- with none
  blocks :
      (missing : List String)
      → s.loop ≡ reporting missing
      → s.stop_closed ≡ false
      → s.chan_closed ≡ false
      → Step s (record s { loop = blocked missing })
  -- by its case `<-stop`
  gives_up :
      (missing : List String)
      → s.loop ≡ reporting missing
      → s.stop_closed ≡ true
      → Step s (record s { loop = finished })
  -- a send on a closed channel is ready, and panics
  sends_on_closed :
      (missing : List String)
      → s.loop ≡ reporting missing
      → s.chan_closed ≡ true
      → Step s (record s { loop = panicked })
  close_stop :
      s.runner ≡ waiting
      → Step s (record s { loop = woken s.loop; runner = signalled; stop_closed = true })
  close_chan : s.runner ≡ signalled → Step s (record s { runner = returned; chan_closed = true })

pub data Reach (s : System) : System → Type 0 where
  here : Reach s s
  next : {t u : System} → Reach s t → Step t u → Reach s u

-- A watch that finds keys missing while its runner is signalled may panic, whatever the keys: there is
-- a run in which the loop has passed its check of `stop` before the runner closes both channels, and
-- then sends on the closed one.
pub closing_panics :
    (missing : List String)
    → missing ≢ []
    → (s : System) × Reach initial s × (s.loop ≡ panicked) × (s.runner ≡ returned)
closing_panics missing some_key = (
  _,
  next
      (next (next (next here (found_missing missing some_key refl refl)) (close_stop refl))
        (close_chan refl))
      (sends_on_closed missing refl refl),
  refl,
  refl,
)
