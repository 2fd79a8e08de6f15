-- ===== src/Expiration/LockPick/Index.antt =====
-- The registry as a map from keys to the greatest index registered.
use mathlib.Core.Option
use locket.Prelude.{
  suc, ◌≡◌, Option, none, some, if◌then◌else◌, Returns, Bool-cases, inl, inr, arith, refl,
}
use locket.Prelude.Int64.{ℤ, leb_ℤ}
use locket.Db.{Lock}
use locket.Expiration.LockPick.{
  CheckKey, ChanAndIndex, LockPick, eq_key, lookup, register_ttl, register_after, start_check,
  check_key_from_lock,
}
use locket.Expiration.LockPick.Registry.{IsWellFormed, eq_key_sound, lookup-insert}

abbrev pub index_at : LockPick → CheckKey → Option ℤ
index_at l k = Option.map (λ c. c.index) (lookup k l.lock_ttls)

-- The greater of an index that may be there and a new one.
abbrev pub newest : Option ℤ → ℤ → ℤ
newest none i = i
newest (some j) i = if leb_ℤ i j then j else i

-- What a registration makes of the indices.
abbrev pub Registers : Lock → LockPick → LockPick → Type 0
Registers lock l l' =
    (k : CheckKey)
    → index_at l' k ≡ (
        if eq_key (check_key_from_lock lock) k
        then some (newest (index_at l (check_key_from_lock lock)) lock.modified_index)
        else index_at l k)

module _ (lock : Lock) (l : LockPick) (v : IsWellFormed l) where
  abbrev key : CheckKey
  key = check_key_from_lock lock

  abbrev entry : ChanAndIndex
  entry = record { channel = l.made; index = lock.modified_index }

  register_after-Registers :
      (o : Option ChanAndIndex)
      → lookup key l.lock_ttls ≡ o
      → Returns (Registers lock l) (register_after o lock entry (record l { made = suc l.made }))
  unfolding register_after start_check
  register_after-Registers none h = λ k. ground (arith, lookup-insert key k entry l.lock_ttls)
  register_after-Registers (some c) h = elim (Bool-cases (leb_ℤ lock.modified_index c.index)) [
    | inl old ↦ rw (old, register_after) (λ k. ground (arith, eq_key_sound key k))
    | inr new ↦
        rw (new, register_after, v.open_channel key c h)
          (λ k. ground (arith, lookup-insert key k entry l.lock_ttls))
  ]

  -- From a well-formed registry RegisterTTL returns; the registry then has, for the key and id of the
  -- lock, the greater of the index that it had and the lock's, and every other entry's index as it was.
  pub register_ttl-Registers : Returns (Registers lock l) (register_ttl lock l)
  unfolding register_ttl
  register_ttl-Registers = register_after-Registers (lookup key l.lock_ttls) refl
