-- ===== src/Expiration/Burglar/Run.antt =====
-- A whole run of the burglar.
use locket.Prelude.{
  ◌≡◌, refl, subst, sym, ap, Bool, true, false, List, [], ◌∷◌, ◌++◌, if◌then◌else◌, is_none,
  Outcome, returned, panicked, Returns, Option-cases, inl, inr, ◌∙◌,
}
use locket.Db.{Lock, LockDb}
use locket.Db.Contract.{IsLockDb, SameTable}
use locket.Expiration.LockPick.{LockPick}
use locket.Expiration.LockPick.Registry.{IsWellFormed}
use locket.Expiration.Check.{System}
use locket.Expiration.Burglar.{
  Event, ticked, signalled, begin, tick, loop, run, go_on, register_all, with_pick,
}
use locket.Expiration.Burglar.Coverage.{All, Covers, Knows, KnowsBoth, register_all_lem}

abbrev pub is_running : List Event → Bool
is_running [] = true
is_running (signalled ∷ events) = false
is_running (ticked ∷ events) = is_running events

-- What the burglar has been told of: each listing that came without an error, before the signal.
abbrev pub learned : (db : LockDb) → List Event → db.Store → List Lock → List Lock
learned db [] store seen = seen
learned db (signalled ∷ events) store seen = seen
learned db (ticked ∷ events) store seen =
    let (locks, e, store') = db.fetch_all "" store in
    learned db events store' (if is_none e then locks ++ seen else seen)

-- The store after the fetch at each tick before the signal, and no other call.
abbrev pub store_left : (db : LockDb) → List Event → db.Store → db.Store
store_left db [] store = store
store_left db (signalled ∷ events) store = store
store_left db (ticked ∷ events) store = store_left db events (db.fetch_all "" store).2

-- The events up to the first signal, which is the last of them.
abbrev pub until_signal : List Event → List Event
until_signal [] = []
until_signal (signalled ∷ events) = signalled ∷ []
until_signal (ticked ∷ events) = ticked ∷ until_signal events

All-append : (P : Lock → Type 0) (xs ys : List Lock) → All P xs → All P ys → All P (xs ++ ys)
All-append P [] ys h k = k
All-append P (x ∷ xs) ys (a, h) k = (a, All-append P xs ys h k)

module _ {db : LockDb} (laws : IsLockDb db) where
  open laws use {table}

  -- A registry that knows `seen`, and a store that is the one given, with the table of the start.
  record Has (seen : List Lock) (store start : db.Store) (s : System db) : Type 0 where
    knows : Knows seen s.pick
    left : s.store ≡ store
    same : SameTable (table store) (table start)

  pub record Ended (seen : List Lock) (running : Bool) (last start : db.Store)
      (r : Bool × System db) : Type 0 where
    pub knows : Knows seen r.1.pick
    pub left : r.1.store ≡ last
    pub same : SameTable (table r.1.store) (table start)
    pub runs : r.0 ≡ running

  with_pick-Has :
      (locks seen : List Lock) (s : System db) (start : db.Store) (o : Outcome LockPick)
      → Returns (KnowsBoth seen locks) o
      → SameTable (table s.store) (table start)
      → Returns (Has (locks ++ seen) s.store start) (with_pick o s)
  unfolding with_pick
  with_pick-Has locks seen s start panicked h same = h
  with_pick-Has locks seen s start (returned p) h same = record {
    knows = record {
      covered = All-append (λ l. Covers l p) locks seen h.1 h.0.covered;
      well_formed = h.0.well_formed;
    };
    left = refl;
    same = same;
  }

  fetched_same :
      (store start : db.Store)
      → SameTable (table store) (table start)
      → SameTable (table (db.fetch_all "" store).2) (table start)
  fetched_same store start same k = laws.fetch_all_keeps "" store k ∙ same k

  tick-Has :
      (seen : List Lock) (s : System db) (start : db.Store)
      → Has seen s.store start s
      → let (locks, e, store') = db.fetch_all "" s.store in
        Returns (Has (if is_none e then locks ++ seen else seen) store' start) (tick s)
  unfolding tick
  tick-Has seen s start h = elim (Option-cases (db.fetch_all "" s.store).1) [
    | inl e ↦
        rw (e, tick)
          (with_pick-Has (db.fetch_all "" s.store).0 seen
            (record s { store = (db.fetch_all "" s.store).2 }) start
            (register_all (db.fetch_all "" s.store).0 s.pick)
            (register_all_lem (db.fetch_all "" s.store).0 seen s.pick h.knows)
            (fetched_same s.store start h.same))
    | inr (x, e) ↦
        rw (e, tick)
          (record { knows = h.knows; left = refl; same = fetched_same s.store start h.same })
  ]

  go_on-Ended :
      (seen seen' : List Lock) (running : Bool) (store last start : db.Store)
      (f : System db → Outcome (Bool × System db)) (o : Outcome (System db))
      → ((s : System db) → Has seen store start s → Returns (Ended seen' running last start) (f s))
      → Returns (Has seen store start) o
      → Returns (Ended seen' running last start) (go_on f o)
  unfolding go_on
  go_on-Ended seen seen' running store last start f panicked g h = h
  go_on-Ended seen seen' running store last start f (returned s) g h = g s h

  loop-Ended :
      (events : List Event) (seen : List Lock) (store start : db.Store) (s : System db)
      → Has seen store start s
      → Returns
          (Ended
            (learned db events store seen)
            (is_running events)
            (store_left db events store)
            start)
          (loop events s)
  unfolding loop
  loop-Ended [] seen store start s h = record {
    knows = h.knows;
    left = h.left;
    same = rw h.left h.same;
    runs = refl;
  }
  loop-Ended (signalled ∷ events) seen store start s h = record {
    knows = h.knows;
    left = h.left;
    same = rw h.left h.same;
    runs = refl;
  }
  loop-Ended (ticked ∷ events) seen store start s h =
      subst
        (λ st.
          Returns
            (Ended (learned db (ticked ∷ events) st seen) (is_running events)
              (store_left db (ticked ∷ events) st) start)
            (go_on (loop events) (tick s)))
        h.left
        (go_on-Ended _ _ (is_running events) _ _ start (loop events) (tick s)
          (loop-Ended events _ _ start)
          (tick-Has seen s start (record {
            knows = h.knows;
            left = refl;
            same = subst (λ st. SameTable (table st) (table start)) (sym h.left) h.same;
          })))

  run_keeps :
      (events : List Event) (s : System db)
      → IsWellFormed s.pick
      → let (locks, _, store) = db.fetch_all "" s.store in
        Returns
          (Ended
            (learned db events store (locks ++ []))
            (is_running events)
            (store_left db events store)
            s.store)
          (run events s)
  unfolding run begin
  run_keeps events s v =
      go_on-Ended _ _ (is_running events) _ _ s.store (loop events) (begin s)
        (loop-Ended events _ _ s.store)
        (with_pick-Has (db.fetch_all "" s.store).0 []
          (record s { store = (db.fetch_all "" s.store).2 }) s.store
          (register_all (db.fetch_all "" s.store).0 s.pick)
          (register_all_lem (db.fetch_all "" s.store).0 [] s.pick
            (record { covered = tt; well_formed = v }))
          (fetched_same s.store s.store (λ k. refl)))

  loop-until_signal : (events : List Event) → loop {db = db} events ≡ loop (until_signal events)
  unfolding loop
  loop-until_signal [] = refl
  loop-until_signal (signalled ∷ events) = refl
  loop-until_signal (ticked ∷ events) = ap (λ f s. go_on f (tick s)) (loop-until_signal events)

  -- Over any LockDB that keeps its contract and from a well-formed registry, the burglar never panics,
  -- whatever ticks and signals it receives. It returns at the first signal, and what follows that signal
  -- makes no difference. It fetches once at the start and once at each tick before the signal, makes no
  -- other call of the database, and changes no lock of the table. Then, and at any time before, the
  -- registry is well formed and has, for every lock that was fetched at the start, with an error or
  -- not, or at a tick without an error, an index at least as great as the lock's.
  pub run-Ended :
      (events : List Event) (s : System db)
      → IsWellFormed s.pick
      → let (locks, _, store) = db.fetch_all "" s.store in
        Returns
          (Ended
            (learned db events store (locks ++ []))
            (is_running events)
            (store_left db events store)
            s.store)
          (run events s)
        × (run events s ≡ run (until_signal events) s)
  unfolding run
  run-Ended events s v =
      (run_keeps events s v, ap (λ f. go_on f (begin s)) (loop-until_signal events))
