-- ===== src/Expiration/Burglar.antt =====
-- expiration/burglar.go: the registry is filled from the database, at the start and at each tick.
pub mod Coverage
pub mod Run
use locket.Prelude.{
  Bool, false, ◌≡◌, ◌≢◌, ◌⊎◌, refl, Option-cases, true, Option, none, some, List, [], ◌∷◌, Outcome,
  returned, panicked, Returns, arith, Bool-cases, inl, inr,
}
use locket.Prelude.Int64.{ℤ, leb_ℤ}
use locket.Models.{Error}
use locket.Db.{Lock, LockDb}
use locket.Expiration.LockPick.{LockPick, register_ttl, check_key_from_lock, eq_key}
use locket.Expiration.LockPick.Registry.{
  IsWellFormed, register_ttl-IsWellFormed, eq_key_sound, eq_key_refl,
}
use locket.Expiration.LockPick.Index.{index_at, newest, Registers, register_ttl-Registers}
use locket.Expiration.Check.{System}

register_next : (LockPick → Outcome LockPick) → Outcome LockPick → Outcome LockPick
register_next f panicked = panicked
register_next f (returned p) = f p

-- The loop over the locks that were fetched.
unfoldable pub register_all : List Lock → LockPick → Outcome LockPick
unfolding register_next
register_all [] p = returned p
register_all (lock ∷ locks) p = register_next (register_all locks) (register_ttl lock p)

with_pick : {db : LockDb} → Outcome LockPick → System db → Outcome (System db)
with_pick panicked s = panicked
with_pick (returned p) s = returned (record s { pick = p })

pub data Event : Type 0 where
  ticked signalled : Event

module _ {db : LockDb} where
  -- Before the loop: what was fetched is registered also after an error.
  unfoldable pub begin : System db → Outcome (System db)
  unfolding with_pick register_all
  begin s =
      let (locks, _, store) = db.fetch_all "" s.store in
      with_pick (register_all locks s.pick) (record s { store = store })

  tick_reply : List Lock → Option Error → System db → Outcome (System db)
  unfolding with_pick register_all
  tick_reply locks (some e) s = returned s
  tick_reply locks none s = with_pick (register_all locks s.pick) s

  unfoldable pub tick : System db → Outcome (System db)
  unfolding tick_reply
  tick s =
      let (locks, e, store) = db.fetch_all "" s.store in
      tick_reply locks e (record s { store = store })

  unfoldable pub go_on :
      (System db → Outcome (Bool × System db)) → Outcome (System db) → Outcome (Bool × System db)
  go_on f panicked = panicked
  go_on f (returned s) = f s

  -- The loop over what its `select` receives, with whether `Run` is still in it.
  unfoldable pub loop : List Event → System db → Outcome (Bool × System db)
  unfolding tick go_on
  loop [] s = returned (true, s)
  loop (signalled ∷ events) s = returned (false, s)
  loop (ticked ∷ events) s = go_on (loop events) (tick s)

  unfoldable pub run : List Event → System db → Outcome (Bool × System db)
  unfolding begin go_on loop
  run events s = go_on (loop events) (begin s)
