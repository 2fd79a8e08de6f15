-- ===== src/Examples/Clients.antt =====
-- The client's runners at work.
use locket.Prelude.{refl, Option, none, some, List, [], ◌∷◌, ◌++◌, map}
use locket.Models.{Error, lock_collision}
use locket.Runner.{LockRunner, retry, signal, new_lock_runner, new_presence_runner, start, run}
use locket.Runner.History.{ExitsWith, start-IsSound, run-Exits}

abbrev lost : Option Error
lost = some lock_collision

-- Refused at the start.
abbrev refused : LockRunner
refused = start lost new_lock_runner

abbrev answers : List (Option Error)
answers = lost ∷ none ∷ none ∷ lost ∷ none ∷ []

run-Exits_example :
    ExitsWith answers lost refused (run (map retry answers ++ signal none ∷ []) refused)
unfolding start
run-Exits_example =
    run-Exits answers none [] refused (start-IsSound lost new_lock_runner refl refl refl)

abbrev presence : LockRunner
presence = start lost new_presence_runner

presence_signalled :
    ExitsWith answers none presence (run (map retry answers ++ signal none ∷ []) presence)
unfolding start
presence_signalled =
    run-Exits answers none [] presence (start-IsSound lost new_presence_runner refl refl refl)
