-- ===== src/Examples/Process.antt =====
-- Handlers, expirations and the burglar at work together.
use locket.Prelude.{inr, true, List, [], ◌∷◌, Returns, arith}
use locket.Db.{Lock}
use locket.Expiration.LockPick.{register_ttl, forget}
use locket.Expiration.LockPick.Attended.{IsAttended, registry_attends}
use locket.Handlers.{lock_request}
use locket.Service.{
  World, Action, requested, expiry_fetches, expiry_releases, expiry_cleans_up, burglar_ticks, run,
}
use locket.Service.Ownership.{HoldsKey, run-HoldsKey}
use locket.Examples.Storage.{cell}
use locket.Examples.Service.{
  db, laws, server, bob_locks, bob_not_alice, alice_named, server-Holds, busy, busy-IsWellFormed,
  renewal,
}

abbrev world : World db
world = record { server = server; emitted = [] }

-- A lock that another owner had before.
abbrev former : Lock
former = record cell { resource = record (cell.resource) { owner = "bob" } }

abbrev actions : List Action
actions =
    requested (lock_request bob_locks)
    ∷ expiry_fetches former
    ∷ burglar_ticks
    ∷ expiry_releases true former
    ∷ expiry_cleans_up former
    ∷ []

run-HoldsKey_example : Returns (HoldsKey laws "cell" "alice" alice_named) (run actions world)
run-HoldsKey_example =
    run-HoldsKey laws "cell" "alice" alice_named actions world server-Holds
      (tt, (tt, (tt, (inr bob_not_alice, (tt, tt)))))

busy-IsAttended : IsAttended busy
busy-IsAttended = record { attended = λ k c at. ground arith }

registry_attends_example :
    Returns IsAttended (register_ttl renewal busy) × IsAttended (forget renewal busy)
registry_attends_example = registry_attends renewal busy busy-IsAttended busy-IsWellFormed
