-- ===== src/Expiration/LockPick/Attended.antt =====
-- Every entry of the registry has a goroutine that checks it.
use locket.Prelude.{
  suc, ◌≡◌, refl, Bool, true, false, ◌&&◌, ◌||◌, Option, none, some, List, [], ◌∷◌, nat_eq, Returns,
  Bool-cases, inl, inr, arith,
}
use locket.Prelude.Int64.{ℤ, eq_ℤ, leb_ℤ}
use locket.Db.{Lock}
use locket.Expiration.LockPick.{
  CheckKey, ChanAndIndex, Check, LockPick, eq_key, lookup, register_ttl, register_after,
  start_check, check_key_from_lock, forget, is_closed,
}
use locket.Expiration.LockPick.Registry.{IsWellFormed, lookup-insert, lookup-delete}

-- A goroutine for a lock of this key and index, which the entry's channel stops.
abbrev pub attends : List Check → CheckKey → ChanAndIndex → Bool
attends [] k c = false
attends (check ∷ checks) k c =
    (eq_key (check_key_from_lock check.lock) k
      && nat_eq check.close_chan c.channel
      && eq_ℤ check.lock.modified_index c.index)
    || attends checks k c

pub record IsAttended (l : LockPick) : Type 0 where
  pub attended :
      (k : CheckKey) (c : ChanAndIndex)
      → lookup k l.lock_ttls ≡ some c
      → attends l.checks k c ≡ true

eq_ℤ_refl : (i : ℤ) → eq_ℤ i i ≡ true
eq_ℤ_refl i = ground arith

module _ (lock : Lock) (l : LockPick) (a : IsAttended l) where
  abbrev key : CheckKey
  key = check_key_from_lock lock

  start_check-IsAttended :
      (c : ChanAndIndex) (l' : LockPick)
      → l'.lock_ttls ≡ l.lock_ttls
      → l'.checks ≡ l.checks
      → c.index ≡ lock.modified_index
      → IsAttended (start_check lock c l')
  unfolding start_check
  start_check-IsAttended c l' e f i = record {
    attended = λ k d at. elim (Bool-cases (eq_key key k)) [
      | inl same ↦ ground (arith, lookup-insert key k c l'.lock_ttls, eq_ℤ_refl lock.modified_index)
      | inr other ↦ ground (arith, lookup-insert key k c l'.lock_ttls, a.attended k d)
    ];
  }

  register_after-IsAttended :
      (o : Option ChanAndIndex) (c : ChanAndIndex) (l' : LockPick)
      → l'.lock_ttls ≡ l.lock_ttls
      → l'.checks ≡ l.checks
      → c.index ≡ lock.modified_index
      → ((d : ChanAndIndex) → o ≡ some d → is_closed d.channel l'.closed ≡ false)
      → Returns IsAttended (register_after o lock c l')
  unfolding register_after
  register_after-IsAttended none c l' e f i open_ = start_check-IsAttended c l' e f i
  register_after-IsAttended (some d) c l' e f i open_ = elim (Bool-cases (leb_ℤ c.index d.index)) [
    | inl old ↦
        rw (old, register_after)
          (record { attended = λ k x at. ground (arith, e, f, a.attended k x) })
    | inr new ↦
        rw (new, register_after, open_ d refl)
          (start_check-IsAttended c (record l' { closed = d.channel ∷ l'.closed }) e f i)
  ]

  -- From a well-formed registry each of whose entries is attended, RegisterTTL and the clean-up of an
  -- expiry leave such a registry: for every entry a goroutine was started for a lock of the entry's key,
  -- id and index, and it listens to the entry's channel.
  pub registry_attends :
      IsWellFormed l → Returns IsAttended (register_ttl lock l) × IsAttended (forget lock l)
  unfolding register_ttl forget
  registry_attends v = (
    register_after-IsAttended (lookup key l.lock_ttls)
        (record { channel = l.made; index = lock.modified_index }) (record l { made = suc l.made })
        refl refl refl (λ d at. v.open_channel key d at),
    record {
      attended = λ k c at. ground (arith, at, lookup-delete key k l.lock_ttls, a.attended k c);
    },
  )
