-- ===== src/Expiration/LockPick.antt =====
-- expiration/lock_pick.go, the registry. `lock_ttls` is the map lockTTLs; a channel is the number of
-- its `make`; `closed` are the channels that were closed; `checks` are the goroutines started, newest
-- first, by their arguments. The mutex makes each method one step.
pub mod Registry
pub mod Index
pub mod Attended
use locket.Prelude.{
  ℕ, suc, String, Bool, true, false, not, ◌&&◌, Option, none, some, List, [], ◌∷◌, ◌==◌, nat_eq,
  if◌then◌else◌, ◌||◌, Outcome, returned, panicked,
}
use locket.Prelude.Int64.{ℤ, pos, eq_ℤ, leb_ℤ, mul_int64}
use locket.Db.{Lock}

pub record CheckKey : Type 0 where
  pub key : String
  pub id : String

pub record ChanAndIndex : Type 0 where
  pub channel : ℕ
  pub index : ℤ

pub record Check : Type 0 where
  pub lock : Lock
  pub close_chan : ℕ

pub record LockPick : Type 0 where
  pub lock_ttls : List (CheckKey × ChanAndIndex)
  pub made : ℕ
  pub closed : List ℕ
  pub checks : List Check

abbrev pub new_lock_pick : LockPick
new_lock_pick = record { lock_ttls = []; made = 0; closed = []; checks = [] }

abbrev pub eq_key : CheckKey → CheckKey → Bool
eq_key a b = a.key == b.key && a.id == b.id

abbrev pub check_key_from_lock : Lock → CheckKey
check_key_from_lock lock = record { key = lock.key; id = lock.modified_id }

-- l.lockTTLs[k]
abbrev pub lookup : CheckKey → List (CheckKey × ChanAndIndex) → Option ChanAndIndex
lookup k [] = none
lookup k ((j, c) ∷ m) = let rest = lookup k m in if eq_key j k then some c else rest

-- delete(l.lockTTLs, k)
abbrev pub delete : CheckKey → List (CheckKey × ChanAndIndex) → List (CheckKey × ChanAndIndex)
delete k [] = []
delete k ((j, c) ∷ m) = let rest = delete k m in if eq_key j k then rest else (j, c) ∷ rest

-- l.lockTTLs[k] = c
abbrev pub insert :
    CheckKey → ChanAndIndex → List (CheckKey × ChanAndIndex) → List (CheckKey × ChanAndIndex)
insert k c m = (k, c) ∷ delete k m

abbrev pub is_closed : ℕ → List ℕ → Bool
is_closed c [] = false
is_closed c (d ∷ ds) = nat_eq c d || is_closed c ds

-- The time for which a check waits, in nanoseconds: time.Duration(lock.TtlInSeconds) * time.Second.
unfoldable pub ttl_duration : Lock → ℤ
ttl_duration lock = mul_int64 lock.ttl_in_seconds 1_000_000_000

-- Stores the entry and starts its goroutine.
start_check : Lock → ChanAndIndex → LockPick → LockPick
start_check lock new_chan_index l = record l {
  lock_ttls = insert (check_key_from_lock lock) new_chan_index l.lock_ttls;
  checks = (record { lock = lock; close_chan = new_chan_index.channel }) ∷ l.checks;
}

register_after : Option ChanAndIndex → Lock → ChanAndIndex → LockPick → Outcome LockPick
unfolding start_check
register_after none lock new_chan_index l = returned (start_check lock new_chan_index l)
register_after (some channel_index) lock new_chan_index l =
    if leb_ℤ new_chan_index.index channel_index.index
    then returned l
    else if is_closed channel_index.channel l.closed
    then panicked
    else returned
        (start_check lock new_chan_index (record l { closed = channel_index.channel ∷ l.closed }))

unfoldable pub register_ttl : Lock → LockPick → Outcome LockPick
unfolding register_after
register_ttl lock l =
    register_after (lookup (check_key_from_lock lock) l.lock_ttls) lock
      (record { channel = l.made; index = lock.modified_index }) (record l { made = suc l.made })

-- The deferred function of checkExpiration. A missing entry reads as index 0.
abbrev pub index_or_zero : Option ChanAndIndex → ℤ
index_or_zero none = pos 0
index_or_zero (some c) = c.index

unfoldable pub forget : Lock → LockPick → LockPick
forget lock l =
    if eq_ℤ (index_or_zero (lookup (check_key_from_lock lock) l.lock_ttls)) lock.modified_index
    then record l { lock_ttls = delete (check_key_from_lock lock) l.lock_ttls }
    else l
