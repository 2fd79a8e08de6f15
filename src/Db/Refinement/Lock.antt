-- ===== src/Db/Refinement/Lock.antt =====
-- `Lock` of db/lock_db.go.
use mathlib.Core.Option
use locket.Prelude.{
  String, ◌≡◌, ◌≢◌, refl, true, false, Option, none, some, ◌==◌, if◌then◌else◌, ◌⊎◌, inl, inr,
  Result, ok, err, arith, Result-cases, is_none, ap, ◌>>=◌, error_of, ◌∙◌,
}
use locket.Prelude.Int64.{ℤ, inc_int64}
use locket.Models.{Error, Resource, lock_collision}
use locket.Sql.{
  SqlHelper, IsSqlHelper, is_foreign, find_row, Transacted, committed, rolled_back, refused,
}
use locket.Db.{Lock, lock, lock_tx, write_lock, pick_id, Claim, claim, claimed_lock, fetch_lock}
use locket.Db.Contract.{Table, is_free, IsGrant, Locked, stored, index_of, id_of}
use locket.Db.Refinement.Table.{is_sql_resource_not_found_sound}
use locket.Db.Refinement.Table
use locket.Db.Refinement.Write

module _ (sql : SqlHelper) (laws : IsSqlHelper sql) where
  open sql use {Store, one}
  open laws use {rows}

  abbrev table : Store → Table
  table = Table.table sql laws

  -- What a claim has learnt of the row under the key.
  record IsClaim (r : Resource) (s : Store) (c : Claim) : Type 0 where
    free : is_free (table s r.key) r.owner ≡ true
    index : c.index ≡ index_of (table s r.key)
    id : c.id ≡ id_of (table s r.key)
    new_lock : c.new_lock ≡ is_none (find_row r.key (rows s))

  claim_ok :
      (r : Resource) (s : Store) (c : Claim)
      → claim sql r (fetch_lock sql r.key s).0 ≡ ok c
      → IsClaim r s c
  unfolding claim fetch_lock Table.table
  claim_ok r s c h = elim (Result-cases (one r.key s).0) [
    | inl (a, x) ↦ ground (arith, x, laws.one_found r.key s a)
    | inr (e, x) ↦ ground (
      arith,
      x,
      laws.one_missing r.key s e,
      is_sql_resource_not_found_sound (sql.convert_sql_error e),
    )
  ]

  claim_err :
      (r : Resource) (s : Store) (e : Error)
      → claim sql r (fetch_lock sql r.key s).0 ≡ err e
      → ((e ≡ lock_collision) × (is_free (table s r.key) r.owner ≡ false)) ⊎ (is_foreign e ≡ true)
  unfolding claim fetch_lock Table.table
  claim_err r s e h = elim (Result-cases (one r.key s).0) [
    | inl (a, x) ↦ ground (arith, x, laws.one_found r.key s a)
    | inr (x, y) ↦ ground (arith, y, laws.one_foreign r.key s x)
  ]

  record Wrote (r : Resource) (ttl : ℤ) (s : Store) (captured : Option Lock) (s' : Store)
      : Type 0 where
    lock : Lock
    captured_lock : captured ≡ some lock
    grant : IsGrant r ttl (table s r.key) lock
    effect : (k : String) → table s' k ≡ (if r.key == k then some (stored lock) else table s k)

  IsGrant-claimed_lock :
      (r : Resource) (ttl : ℤ) (s : Store) (c : Claim) (id : String)
      → IsClaim r s c
      → id ≢ ""
      → (c.id ≡ "") ⊎ (id ≡ c.id)
      → IsGrant r ttl (table s r.key) (claimed_lock r ttl c id)
  IsGrant-claimed_lock r ttl s c id v ne kept = record {
    resource = refl;
    ttl_in_seconds = refl;
    modified_index = ap inc_int64 v.index;
    id_nonempty = ne;
    id_kept = rw (← v.id) kept;
  }

  write_lock_ok :
      (r : Resource) (ttl : ℤ) (c : Claim) (old : Option Lock) (s s₁ : Store)
      → rows s₁ ≡ rows s
      → IsClaim r s c
      → (write_lock sql r ttl c (old, s₁)).0 ≡ ok tt
      → let (captured, s') = (write_lock sql r ttl c (old, s₁)).1 in Wrote r ttl s captured s'
  unfolding write_lock
  write_lock_ok r ttl c old s s₁ same v h = elim (Result-cases (pick_id sql c s₁).0) [
    | inl (id, x) ↦
        let (ne, kept, same') = Write.pick_id_ok sql laws c s₁ id x in
        let l = claimed_lock r ttl c id in
        rw (x, write_lock, ◌>>=◌)
          (record {
            lock = l;
            captured_lock = refl;
            grant = IsGrant-claimed_lock r ttl s c id v ne kept;
            effect =
                Write.table-put sql laws r l c.new_lock s (pick_id sql c s₁).1 refl (same' ∙ same)
                  v.new_lock (rw (x, write_lock, ◌>>=◌) at h);
          })
    | inr (e, x) ↦ absurd (ground (arith, x, h))
  ]

  write_lock_err :
      (r : Resource) (ttl : ℤ) (c : Claim) (old : Option Lock) (s : Store) (e : Error)
      → (write_lock sql r ttl c (old, s)).0 ≡ err e
      → is_foreign e ≡ true
  unfolding write_lock
  write_lock_err r ttl c old s e h = elim (Result-cases (pick_id sql c s).0) [
    | inl (id, x) ↦
        let l = claimed_lock r ttl c id in
        ground (arith, x, h, Write.put_foreign sql laws c.new_lock l (pick_id sql c s).1 e)
    | inr (e', x) ↦ ground (arith, x, h, Write.pick_id_err sql laws c s e' x)
  ]

  lock_tx_ok :
      (r : Resource) (ttl : ℤ) (old : Option Lock) (s : Store)
      → (lock_tx sql r ttl (old, s)).0 ≡ ok tt
      → let (captured, s') = (lock_tx sql r ttl (old, s)).1 in
        (is_free (table s r.key) r.owner ≡ true) × Wrote r ttl s captured s'
  unfolding lock_tx
  lock_tx_ok r ttl old s h = elim (Result-cases (claim sql r (fetch_lock sql r.key s).0)) [
    | inl (c, x) ↦
        rw (x, lock_tx)
          (
            (claim_ok r s c x).free,
            write_lock_ok r ttl c old s (fetch_lock sql r.key s).1
                (Table.rows-fetch_lock sql laws r.key s) (claim_ok r s c x) (rw (x, lock_tx) at h),
          )
    | inr (e, x) ↦ absurd (ground (arith, x, h))
  ]

  lock_tx_err :
      (r : Resource) (ttl : ℤ) (old : Option Lock) (s : Store) (e : Error)
      → (lock_tx sql r ttl (old, s)).0 ≡ err e
      → ((e ≡ lock_collision) × (is_free (table s r.key) r.owner ≡ false)) ⊎ (is_foreign e ≡ true)
  unfolding lock_tx
  lock_tx_err r ttl old s e h = elim (Result-cases (claim sql r (fetch_lock sql r.key s).0)) [
    | inl (c, x) ↦
        inr (write_lock_err r ttl c old (fetch_lock sql r.key s).1 e (rw (x, lock_tx) at h))
    | inr (e', x) ↦ ground (arith, x, h, claim_err r s e')
  ]

  -- Over a SQL database that keeps its laws, `Lock` does one of three things. It grants the key, which
  -- no other owner held: the lock that it returns is the normalised resource with the TTL, the index of
  -- the table counted up and the id of the table or a new one, and the table changes at that key only.
  -- Or it returns lock-collision, where another owner holds the key, or an error of the database; then
  -- the table is as it was.
  pub lock_lem :
      (r : Resource) (ttl : ℤ) (s : Store)
      → let (l, e, s') = lock sql r ttl s in Locked (table s) r ttl l e (table s')
  unfolding lock
  lock_lem r ttl s = go (laws.transact_Transacted (lock_tx sql r ttl) none s)
    where
      t : Result Error (Unit {0}) × (Option Lock × Store)
      t = sql.transact (lock_tx sql r ttl) (none, s)

      go :
          Transacted rows (lock_tx sql r ttl) none s t.0 t.1.0 t.1.1
          → Locked
              (table s)
              r
              ttl
              t.1.0
              (Option.map sql.convert_sql_error (error_of t.0))
              (table t.1.1)
      go (committed c₀ s₀ _ same run res cap kept) =
          let (free, w) = lock_tx_ok r ttl c₀ s₀ run in
          let b : table s₀ r.key ≡ table s r.key = Table.table-rows sql laws s₀ s r.key same in
          Locked.granted w.lock (cap ∙ w.captured_lock) (rw res) (rw (← b) free) (rw (← b) w.grant)
            (λ k.
              Table.table-rows sql laws t.1.1 (lock_tx sql r ttl (c₀, s₀)).1.1 k kept
              ∙ w.effect k
              ∙ ap (λ x. if r.key == k then some (stored w.lock) else x)
                  (Table.table-rows sql laws s₀ s k same))
      go (rolled_back c₀ s₀ e _ same run res kept) = elim (lock_tx_err r ttl c₀ s₀ e run) [
        | inl (x, y) ↦
            Locked.collided (rw (res, x) (ap some (laws.convert_own lock_collision refl)))
              (rw (← Table.table-rows sql laws s₀ s r.key same) y)
              (λ k. Table.table-rows sql laws t.1.1 s k kept)
        | inr x ↦
            Locked.failed (sql.convert_sql_error e) (rw res) (laws.convert_foreign e x)
              (λ k. Table.table-rows sql laws t.1.1 s k kept)
      ]
      go (refused e f res kept) =
          Locked.failed (sql.convert_sql_error e) (rw res) (laws.convert_foreign e f)
            (λ k. Table.table-rows sql laws t.1.1 s k kept)
