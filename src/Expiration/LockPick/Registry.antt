-- ===== src/Expiration/LockPick/Registry.antt =====
-- The registry stays well formed.
use locket.Prelude.{
  ℕ, suc, ◌<◌, ◌≡◌, refl, true, false, Option, none, some, List, [], ◌∷◌, if◌then◌else◌, arith,
  eq_iff, eq_refl, Returns, Bool-cases, inl, inr,
}
use locket.Prelude.Int64.{eq_ℤ, leb_ℤ}
use locket.Db.{Lock}
use locket.Expiration.LockPick.{
  CheckKey, ChanAndIndex, LockPick, eq_key, lookup, delete, insert, register_ttl, register_after,
  forget, index_or_zero, start_check, is_closed, check_key_from_lock, new_lock_pick,
}

pub lookup-delete :
    (k j : CheckKey) (m : List (CheckKey × ChanAndIndex))
    → lookup j (delete k m) ≡ (if eq_key k j then none else lookup j m)
lookup-delete k j [] = ground arith
lookup-delete k j ((i, c) ∷ m) = ground (
  arith,
  lookup-delete k j m,
  eq_iff i.key k.key,
  eq_iff i.key j.key,
  eq_iff k.key j.key,
  eq_iff i.id k.id,
  eq_iff i.id j.id,
  eq_iff k.id j.id,
)

pub lookup-insert :
    (k j : CheckKey) (c : ChanAndIndex) (m : List (CheckKey × ChanAndIndex))
    → lookup j (insert k c m) ≡ (if eq_key k j then some c else lookup j m)
lookup-insert k j c m = ground (arith, lookup-delete k j m)

pub eq_key_sound : (i k : CheckKey) → eq_key i k ≡ true → i ≡ k
eq_key_sound i k h = ground (arith, eq_iff i.key k.key, eq_iff i.id k.id)

-- Two keys that are equal to a third one are equal.
same_key : (i k j : CheckKey) → eq_key i k ≡ true → eq_key i j ≡ true → eq_key k j ≡ true
same_key i k j p q = ground (
  arith,
  eq_iff i.key k.key,
  eq_iff i.key j.key,
  eq_iff k.key j.key,
  eq_iff i.id k.id,
  eq_iff i.id j.id,
  eq_iff k.id j.id,
)

pub eq_key_refl : (k : CheckKey) → eq_key k k ≡ true
eq_key_refl k = ground (arith, eq_refl k.key, eq_refl k.id)

-- What holds of the registry between two calls: the channel of an entry was made and is open, and no
-- two entries share one.
pub record IsWellFormed (l : LockPick) : Type 0 where
  pub open_channel :
      (k : CheckKey) (c : ChanAndIndex)
      → lookup k l.lock_ttls ≡ some c
      → is_closed c.channel l.closed ≡ false
  pub made_channel :
      (k : CheckKey) (c : ChanAndIndex) → lookup k l.lock_ttls ≡ some c → c.channel < l.made
  pub closed_made : (n : ℕ) → is_closed n l.closed ≡ true → n < l.made
  pub own_channel :
      (k j : CheckKey) (c d : ChanAndIndex)
      → lookup k l.lock_ttls ≡ some c
      → lookup j l.lock_ttls ≡ some d
      → c.channel ≡ d.channel
      → eq_key k j ≡ true

-- A new entry on a fresh channel keeps the registry well formed, if `closed` holds made channels, and
-- none of another key.
module _ (lock : Lock) (l : LockPick) (v : IsWellFormed l) (closed : List ℕ)
    (made : (n : ℕ) → is_closed n closed ≡ true → n < l.made)
    (apart : (k : CheckKey) (c : ChanAndIndex)
      → lookup k l.lock_ttls ≡ some c
      → eq_key (check_key_from_lock lock) k ≡ false
      → is_closed c.channel closed ≡ false) where
  abbrev entry : ChanAndIndex
  entry = record { channel = l.made; index = lock.modified_index }

  abbrev key : CheckKey
  key = check_key_from_lock lock

  start_check-IsWellFormed :
      IsWellFormed (start_check lock entry (record l { made = suc l.made; closed = closed }))
  unfolding start_check
  start_check-IsWellFormed = record {
    open_channel =
        λ k c h. ground (arith, lookup-insert key k entry l.lock_ttls, apart k c, made l.made);
    made_channel =
        λ k c h. ground (arith, lookup-insert key k entry l.lock_ttls, v.made_channel k c);
    closed_made = λ n h. ground (arith, made n);
    own_channel = λ k j c d hc hd e. ground (
      arith,
      lookup-insert key k entry l.lock_ttls,
      lookup-insert key j entry l.lock_ttls,
      v.made_channel k c,
      v.made_channel j d,
      v.own_channel k j c d,
      same_key key k j,
    );
  }

made_suc : (l : LockPick) → IsWellFormed l → IsWellFormed (record l { made = suc l.made })
made_suc l v = record {
  open_channel = v.open_channel;
  made_channel = λ k c h. ground (arith, v.made_channel k c h);
  closed_made = λ n h. ground (arith, v.closed_made n h);
  own_channel = v.own_channel;
}

register_after-IsWellFormed :
    (lock : Lock) (l : LockPick)
    → IsWellFormed l
    → (o : Option ChanAndIndex) → lookup (check_key_from_lock lock) l.lock_ttls ≡ o
    → Returns IsWellFormed (
        register_after o lock
          (record { channel = l.made; index = lock.modified_index })
          (record l { made = suc l.made }))
unfolding register_after
register_after-IsWellFormed lock l v none h =
    start_check-IsWellFormed lock l v l.closed v.closed_made (λ k c e _. v.open_channel k c e)
register_after-IsWellFormed lock l v (some c) h =
    elim (Bool-cases (leb_ℤ lock.modified_index c.index)) [
      | inl old ↦ rw (old, register_after) (made_suc l v)
      | inr new ↦
          rw (new, register_after, v.open_channel _ c h)
            (start_check-IsWellFormed lock l v (c.channel ∷ l.closed)
              (λ n e. ground (arith, v.closed_made n, v.made_channel (check_key_from_lock lock) c))
              (λ k d e ne.
                ground (arith, v.open_channel k d, v.own_channel (check_key_from_lock lock) k c d)))
    ]

-- From a well-formed registry RegisterTTL returns, so it closes no channel twice, and the registry that
-- it leaves is well formed: each entry's channel was made and is open, and no two entries share one.
pub register_ttl-IsWellFormed :
    (lock : Lock) (l : LockPick) → IsWellFormed l → Returns IsWellFormed (register_ttl lock l)
unfolding register_ttl
register_ttl-IsWellFormed lock l v =
    register_after-IsWellFormed lock l v (lookup (check_key_from_lock lock) l.lock_ttls) refl

delete-IsWellFormed :
    (key : CheckKey) (l : LockPick)
    → IsWellFormed l
    → IsWellFormed (record l { lock_ttls = delete key l.lock_ttls })
delete-IsWellFormed key l v = record {
  open_channel = λ k c h. ground (arith, lookup-delete key k l.lock_ttls, v.open_channel k c);
  made_channel = λ k c h. ground (arith, lookup-delete key k l.lock_ttls, v.made_channel k c);
  closed_made = v.closed_made;
  own_channel = λ k j c d hc hd e. ground (
    arith,
    lookup-delete key k l.lock_ttls,
    lookup-delete key j l.lock_ttls,
    v.own_channel k j c d,
  );
}

-- The clean-up that an expiry defers keeps the registry well formed.
pub forget-IsWellFormed :
    (lock : Lock) (l : LockPick) → IsWellFormed l → IsWellFormed (forget lock l)
unfolding forget
forget-IsWellFormed lock l v =
    elim (Bool-cases
      (eq_ℤ (index_or_zero (lookup (check_key_from_lock lock) l.lock_ttls)) lock.modified_index)) [
        | inl same ↦ rw (same, forget) (delete-IsWellFormed (check_key_from_lock lock) l v)
        | inr other ↦ rw (other, forget) v
      ]

-- The registry of a new process.
pub new_lock_pick-IsWellFormed : IsWellFormed new_lock_pick
new_lock_pick-IsWellFormed = record {
  open_channel = λ k c h. refl;
  made_channel = λ k c h. cc;
  closed_made = λ n h. cc;
  own_channel = λ k j c d h _ _. cc;
}
