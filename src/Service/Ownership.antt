-- ===== src/Service/Ownership.antt =====
-- A held key stays with its owner, whatever the handlers, the expirations and the burglar do.
use locket.Prelude.{
  String, ◌≡◌, ◌≢◌, ◌⊎◌, true, false, none, List, [], ◌∷◌, Outcome, returned, panicked, Returns,
  inl, inr,
}
use locket.Db.{Lock, LockDb}
use locket.Db.Contract.{IsLockDb, Fetched, SameTable}
use locket.Expiration.Check.{System, fetch_step, release_step, cleanup_step}
use locket.Expiration.Burglar.{tick}
use locket.Expiration.Burglar.Coverage.{Knows, tick-Knows, Leaves, tick-Leaves}
use locket.Expiration.LockPick.Registry.{IsWellFormed, forget-IsWellFormed}
use locket.Handlers.{Server}
use locket.Handlers.Exclusion.{handle, Spares, All, Holds, handle-Holds, released_owner, kept_owner}
use locket.Service.{
  World, Action, requested, expiry_fetches, expiry_releases, expiry_cleans_up, burglar_ticks,
  shared, act, run, served, fetched, ticked, go_on,
}

-- Every action but a release of `k` by `owner`, be it asked for or by an expiry, and a release with no
-- resource.
abbrev pub SparesKey : String → String → Action → Type 0
SparesKey k owner (requested req) = Spares k owner req
SparesKey k owner (expiry_releases true lock) = (lock.key ≢ k) ⊎ (lock.owner ≢ owner)
SparesKey k owner _ = Unit

module _ {db : LockDb} (laws : IsLockDb db) (k owner : String) (named : owner ≢ "") where
  open laws use {table}

  abbrev pub HoldsKey : World db → Type 0
  HoldsKey w = Holds laws k owner named w.server

  fetch_keeps :
      (lock : Lock) (w : World db)
      → HoldsKey w
      → Returns HoldsKey (fetched w (fetch_step db lock (shared w)))
  unfolding fetched fetch_step
  fetch_keeps lock w h = elim (laws.fetch_Fetched lock.key w.server.store) [
    | Fetched.found l a b _ _ same ↦ rw (a, b, fetch_step) (kept same)
    | Fetched.missing a _ same ↦ rw (a, fetch_step) (kept same)
    | Fetched.failed x a _ same ↦ rw (a, fetch_step) (kept same)
  ]
    where
      w₁ : World db
      w₁ = record w { server = record (w.server) { store = (db.fetch lock.key w.server.store).2 } }

      kept : SameTable (table w₁.server.store) (table w.server.store) → HoldsKey w₁
      kept same = record { owned = kept_owner laws k owner named same h.owned; pick = h.pick }

  tick_keeps : (w : World db) → HoldsKey w → Returns HoldsKey (ticked w (tick (shared w)))
  unfolding ticked
  tick_keeps w h = go (tick (shared w)) (tick-Knows (shared w) h.pick) (tick-Leaves (shared w))
    where
      pick_of :
          (s : System db)
          → (((db.fetch_all "" w.server.store).1 ≡ none)
              × Knows (db.fetch_all "" w.server.store).0 s.pick)
            ⊎ ((s.pick ≡ w.server.pick) × ((db.fetch_all "" w.server.store).1 ≢ none))
          → IsWellFormed s.pick
      pick_of s (inl (e, knows)) = knows.well_formed
      pick_of s (inr (same, e)) = rw same h.pick

      go :
          (o : Outcome (System db))
          → Returns
              (λ s.
                (((db.fetch_all "" w.server.store).1 ≡ none)
                  × Knows (db.fetch_all "" w.server.store).0 s.pick)
                ⊎ ((s.pick ≡ w.server.pick) × ((db.fetch_all "" w.server.store).1 ≢ none)))
              o
          → Leaves (db.fetch_all "" w.server.store).2 o
          → Returns HoldsKey (ticked w o)
      go panicked p same = p
      go (returned s) p same = record {
        owned =
            rw same
              (kept_owner laws k owner named (laws.fetch_all_keeps "" w.server.store) h.owned);
        pick = pick_of s p;
      }

  act-HoldsKey :
      (action : Action) (w : World db)
      → HoldsKey w
      → SparesKey k owner action
      → Returns HoldsKey (act action w)
  unfolding act release_step cleanup_step
  act-HoldsKey (requested req) w h spared =
      go (handle req w.server) (handle-Holds laws k owner named req w.server h spared)
    where
      go :
          (o : Outcome (Server db))
          → Returns (Holds laws k owner named) o
          → Returns HoldsKey (served w o)
      go panicked p = p
      go (returned s) p = p
  act-HoldsKey (expiry_fetches lock) w h _ = fetch_keeps lock w h
  act-HoldsKey (expiry_releases true lock) w h spared = record {
    owned = released_owner laws k owner named lock.resource w.server.store spared h.owned;
    pick = h.pick;
  }
  act-HoldsKey (expiry_releases false lock) w h _ = record { owned = h.owned; pick = h.pick }
  act-HoldsKey (expiry_cleans_up lock) w h _ = record {
    owned = h.owned;
    pick = forget-IsWellFormed lock w.server.pick h.pick;
  }
  act-HoldsKey burglar_ticks w h _ = tick_keeps w h

  -- Over any LockDB that keeps its contract and from a well-formed registry, a key that a named owner
  -- holds stays with that owner over any interleaving of requests, of the three steps of expiries and of
  -- ticks of the burglar, in which neither a Release request nor the release of an expiry names both
  -- the key and the owner, and each Release request has a resource. No step of it panics.
  pub run-HoldsKey :
      (actions : List Action) (w : World db)
      → HoldsKey w
      → All (SparesKey k owner) actions
      → Returns HoldsKey (run actions w)
  unfolding run
  run-HoldsKey [] w h _ = h
  run-HoldsKey (action ∷ actions) w h (spared, rest) =
      next (λ w' h'. run-HoldsKey actions w' h' rest) (act action w)
        (act-HoldsKey action w h spared)
    where
      next :
          ((w' : World db) → HoldsKey w' → Returns HoldsKey (run actions w'))
          → (o : Outcome (World db)) → Returns HoldsKey o
          → Returns HoldsKey (go_on (run actions) o)
      next f panicked p = p
      next f (returned w') p = f w' p
