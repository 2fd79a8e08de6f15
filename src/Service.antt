-- ===== src/Service.antt =====
-- The process of cmd/locket/main.go: the handlers, the expirations and the burglar share one database
-- and one registry, and interleave. An action is one step of one of them; an expiry takes three.
pub mod Ownership
use locket.Prelude.{Bool, List, [], ◌∷◌, Outcome, returned, panicked}
use locket.Db.{Lock, LockDb}
use locket.Expiration.Check.{System, Metric, fetch_step, release_step, cleanup_step}
use locket.Expiration.Burglar.{tick}
use locket.Handlers.{Server, Request}
use locket.Handlers.Exclusion.{handle}

pub record World (db : LockDb) : Type 0 where
  pub server : Server db
  pub emitted : List Metric

pub data Action : Type 0 where
  requested : Request → Action
  expiry_fetches : Lock → Action
  -- with what the expiry has decided
  expiry_releases : Bool → Lock → Action
  expiry_cleans_up : Lock → Action
  burglar_ticks : Action

module _ {db : LockDb} where
  -- What the expirations and the burglar see of it, and what they leave.
  abbrev pub shared : World db → System db
  shared w = record { store = w.server.store; pick = w.server.pick; emitted = w.emitted }

  abbrev pub after : World db → System db → World db
  after w s = record {
    server = record (w.server) { store = s.store; pick = s.pick };
    emitted = s.emitted;
  }

  served : World db → Outcome (Server db) → Outcome (World db)
  served w panicked = panicked
  served w (returned server) = returned (record w { server = server })

  fetched : World db → Outcome (Bool × System db) → Outcome (World db)
  fetched w panicked = panicked
  fetched w (returned (release, s)) = returned (after w s)

  ticked : World db → Outcome (System db) → Outcome (World db)
  ticked w panicked = panicked
  ticked w (returned s) = returned (after w s)

  unfoldable pub act : Action → World db → Outcome (World db)
  unfolding served fetched ticked
  act (requested req) w = served w (handle req w.server)
  act (expiry_fetches lock) w = fetched w (fetch_step db lock (shared w))
  act (expiry_releases release lock) w =
      returned (after w (release_step db release lock (shared w)))
  act (expiry_cleans_up lock) w = returned (after w (cleanup_step db lock (shared w)))
  act burglar_ticks w = ticked w (tick (shared w))

  go_on : (World db → Outcome (World db)) → Outcome (World db) → Outcome (World db)
  go_on f panicked = panicked
  go_on f (returned w) = f w

  unfoldable pub run : List Action → World db → Outcome (World db)
  unfolding act go_on
  run [] w = returned w
  run (action ∷ actions) w = go_on (run actions) (act action w)
