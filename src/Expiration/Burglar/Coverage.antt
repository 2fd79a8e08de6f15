-- ===== src/Expiration/Burglar/Coverage.antt =====
-- What the burglar has registered: every lock that it fetched.
use locket.Prelude.{
  ◌≡◌, ◌≢◌, ◌⊎◌, refl, Option-cases, true, Option, none, some, List, [], ◌∷◌, Outcome, returned,
  panicked, Returns, arith, Bool-cases, inl, inr,
}
use locket.Prelude.Int64.{ℤ, leb_ℤ}
use locket.Models.{Error}
use locket.Db.{Lock, LockDb}
use locket.Expiration.LockPick.{LockPick, register_ttl, check_key_from_lock, eq_key}
use locket.Expiration.LockPick.Registry.{
  IsWellFormed, register_ttl-IsWellFormed, eq_key_sound, eq_key_refl,
}
use locket.Expiration.LockPick.Index.{index_at, newest, Registers, register_ttl-Registers}
use locket.Expiration.Check.{System}
use locket.Expiration.Burglar.{register_next, register_all, with_pick, begin, tick}

-- The registry has at least this index for the lock's key.
abbrev pub Covers : Lock → LockPick → Type 0
Covers lock p =
    (i : ℤ) × (index_at p (check_key_from_lock lock) ≡ some i)
    × (leb_ℤ lock.modified_index i ≡ true)

leb_ℤ_refl : (a : ℤ) → leb_ℤ a a ≡ true
leb_ℤ_refl a = ground arith

leb_ℤ_trans : (a b c : ℤ) → leb_ℤ a b ≡ true → leb_ℤ b c ≡ true → leb_ℤ a c ≡ true
leb_ℤ_trans a b c h k = ground arith

newest_bounds : (o : Option ℤ) (i : ℤ) → leb_ℤ i (newest o i) ≡ true
newest_bounds o i = ground (arith, leb_ℤ_refl i)

Registers-Covers : (lock : Lock) (p p' : LockPick) → Registers lock p p' → Covers lock p'
Registers-Covers lock p p' h = (
  newest (index_at p (check_key_from_lock lock)) lock.modified_index,
  ground (arith, h (check_key_from_lock lock), eq_key_refl (check_key_from_lock lock)),
  newest_bounds _ lock.modified_index,
)

leb_newest : (i j : ℤ) → leb_ℤ i (newest (some i) j) ≡ true
leb_newest i j = ground arith

Covers-Registers :
    (old lock : Lock) (p p' : LockPick) → Covers old p → Registers lock p p' → Covers old p'
Covers-Registers old lock p p' (i, at, le) h =
    elim (Bool-cases (eq_key (check_key_from_lock lock) (check_key_from_lock old))) [
      | inl same ↦ (
        newest (some i) lock.modified_index,
        ground (
          arith,
          h (check_key_from_lock old),
          same,
          at,
          eq_key_sound (check_key_from_lock lock) (check_key_from_lock old),
        ),
        leb_ℤ_trans old.modified_index i _ le (leb_newest i lock.modified_index),
      )
      | inr other ↦ (i, ground (arith, h (check_key_from_lock old), other, at), le)
    ]

abbrev pub All {ℓ} : {A : Type ℓ} → (A → Type 0) → List A → Type 0
All P [] = Unit
All P (x ∷ xs) = P x × All P xs

-- A well-formed registry that covers every lock of `seen`.
pub record Knows (seen : List Lock) (p : LockPick) : Type 0 where
  pub covered : All (λ l. Covers l p) seen
  pub well_formed : IsWellFormed p

All-Covers :
    (seen : List Lock) (lock : Lock) (p p' : LockPick)
    → All (λ l. Covers l p) seen
    → Registers lock p p'
    → All (λ l. Covers l p') seen
All-Covers [] lock p p' h r = tt
All-Covers (x ∷ seen) lock p p' (c, h) r =
    (Covers-Registers x lock p p' c r, All-Covers seen lock p p' h r)

register_ttl_lem :
    (lock : Lock) (p : LockPick)
    → IsWellFormed p
    → Returns (λ p'. Registers lock p p' × IsWellFormed p') (register_ttl lock p)
register_ttl_lem lock p v =
    both (register_ttl lock p) (register_ttl-Registers lock p v)
      (register_ttl-IsWellFormed lock p v)
  where
    both :
        (o : Outcome LockPick)
        → Returns (Registers lock p) o
        → Returns IsWellFormed o
        → Returns (λ p'. Registers lock p p' × IsWellFormed p') o
    both panicked r w = r
    both (returned p') r w = (r, w)

-- What the loop has done from a registry that knew `seen`.
abbrev pub KnowsBoth : List Lock → List Lock → LockPick → Type 0
KnowsBoth seen locks p = Knows seen p × All (λ l. Covers l p) locks

pub register_all_lem :
    (locks seen : List Lock) (p : LockPick)
    → Knows seen p
    → Returns (KnowsBoth seen locks) (register_all locks p)
unfolding register_all
register_all_lem [] seen p k = (k, tt)
register_all_lem (lock ∷ locks) seen p k =
    next (λ p' k'. register_all_lem locks (lock ∷ seen) p' k') (register_ttl lock p)
      (register_ttl_lem lock p k.well_formed)
  where
    shift :
        (o : Outcome LockPick)
        → Returns (KnowsBoth (lock ∷ seen) locks) o
        → Returns (KnowsBoth seen (lock ∷ locks)) o
    shift panicked h = h
    shift (returned p') h =
        (record { covered = h.0.covered.1; well_formed = h.0.well_formed }, (h.0.covered.0, h.1))

    next :
        ((p' : LockPick)
          → Knows (lock ∷ seen) p'
          → Returns (KnowsBoth (lock ∷ seen) locks) (register_all locks p'))
        → (o : Outcome LockPick) → Returns (λ p'. Registers lock p p' × IsWellFormed p') o
        → Returns (KnowsBoth seen (lock ∷ locks)) (register_next (register_all locks) o)
    next f panicked h = h
    next f (returned p') (r, w) = shift (register_all locks p') (
        f p' (record {
          covered = (Registers-Covers lock p p' r, All-Covers seen lock p p' k.covered r);
          well_formed = w;
        }))

module _ {db : LockDb} (s : System db) (v : IsWellFormed s.pick) where
  abbrev fetched : List Lock
  fetched = (db.fetch_all "" s.store).0

  with_pick-Knows :
      (o : Outcome LockPick) (s₁ : System db)
      → Returns (KnowsBoth [] fetched) o
      → Returns (λ s'. Knows fetched s'.pick) (with_pick o s₁)
  unfolding with_pick
  with_pick-Knows panicked s₁ h = h
  with_pick-Knows (returned p) s₁ h = record { covered = h.1; well_formed = h.0.well_formed }

  -- From a well-formed registry the burglar starts without a panic, and then the registry is well formed
  -- and has, for every lock that was fetched, with an error or not, an index at least as great as the
  -- lock's.
  pub begin-Knows : Returns (λ s'. Knows fetched s'.pick) (begin s)
  unfolding begin
  begin-Knows =
      with_pick-Knows (register_all fetched s.pick) _
        (register_all_lem fetched [] s.pick (record { covered = tt; well_formed = v }))

  -- From a well-formed registry a tick of the burglar returns without a panic. If the fetch returned no
  -- error, the registry is then well formed and has, for every lock fetched, an index at least as great
  -- as the lock's; if it returned one, the registry is as it was.
  pub tick-Knows :
      Returns
        (λ s'.
          (((db.fetch_all "" s.store).1 ≡ none) × Knows fetched s'.pick)
          ⊎ ((s'.pick ≡ s.pick) × ((db.fetch_all "" s.store).1 ≢ none)))
        (tick s)
  unfolding tick
  tick-Knows = elim (Option-cases (db.fetch_all "" s.store).1) [
    | inl e ↦ rw (e, tick) (relabel (with_pick (register_all fetched s.pick) s₁) begun)
    | inr (x, e) ↦ rw (e, tick) (inr (refl, λ p. (cc)))
  ]
    where
      s₁ : System db
      s₁ = record s { store = (db.fetch_all "" s.store).2 }

      begun : Returns (λ s'. Knows fetched s'.pick) (with_pick (register_all fetched s.pick) s₁)
      begun =
          with_pick-Knows (register_all fetched s.pick) s₁
            (register_all_lem fetched [] s.pick (record { covered = tt; well_formed = v }))

      relabel :
          (o : Outcome (System db))
          → Returns (λ s'. Knows fetched s'.pick) o
          → Returns
              (λ s'.
                ((◌≡◌ {A = Option Error} none none) × Knows fetched s'.pick)
                ⊎ ((s'.pick ≡ s.pick) × (◌≢◌ {A = Option Error} none none)))
              o
      relabel panicked h = h
      relabel (returned s') h = inl (refl, h)

-- The store that a call leaves, where it returns.
abbrev pub Leaves : {db : LockDb} → db.Store → Outcome (System db) → Type 0
Leaves store panicked = Unit
Leaves store (returned s) = s.store ≡ store

module _ {db : LockDb} (s : System db) where
  with_pick-Leaves : (o : Outcome LockPick) (s₁ : System db) → Leaves s₁.store (with_pick o s₁)
  unfolding with_pick
  with_pick-Leaves panicked s₁ = tt
  with_pick-Leaves (returned p) s₁ = refl

  pub tick-Leaves : Leaves (db.fetch_all "" s.store).2 (tick s)
  unfolding tick
  tick-Leaves = elim (Option-cases (db.fetch_all "" s.store).1) [
    | inl e ↦ rw (e, tick) (with_pick-Leaves _ (record s { store = (db.fetch_all "" s.store).2 }))
    | inr (x, e) ↦ rw (e, tick) refl
  ]
