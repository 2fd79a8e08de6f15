-- ===== src/Consul/Watcher.antt =====
-- disappearance_watcher.go: the loop that lists the keys under a prefix and reports those whose
-- session has gone. A keySet is a list without repetition, in an order of its own, as a Go map is
-- walked in any order. `Response` is what consul answers in one round of the loop.
pub mod Reports
pub mod Closing
use locket.Prelude.{
  ℕ, String, Bool, true, false, ◌&&◌, ◌||◌, not, Option, none, some, List, [], ◌∷◌, ◌==◌,
  if◌then◌else◌, is_none,
}

pub record KvPair : Type 0 where
  pub key : String
  pub session : String

pub data Response : Type 0 where
  list_failed : Response
  -- the pairs, which are nil if the prefix is not there, the index, and whether a Put would fail
  listed : Option (List KvPair) → ℕ → Bool → Response

abbrev pub KeySet : Type 0
KeySet = List String

abbrev pub has : KeySet → String → Bool
has [] k = false
has (j ∷ keys) k = j == k || has keys k

pub insert : String → KeySet → KeySet
insert k keys = if has keys k then keys else k ∷ keys

unfoldable pub new_key_set : List KvPair → KeySet
unfolding insert
new_key_set [] = []
new_key_set (pair ∷ pairs) =
    let rest = new_key_set pairs in if not (pair.session == "") then insert pair.key rest else rest

unfoldable pub difference : KeySet → KeySet → List String
difference [] b = []
difference (k ∷ a) b = let missing = difference a b in if has b k then missing else k ∷ missing

-- The loop's variables, and what was sent to disappearanceChan, newest first.
pub record Watch : Type 0 where
  pub keys : KeySet
  pub wait_index : ℕ
  pub sent : List (List String)

abbrev pub new_watch : Watch
new_watch = record { keys = []; wait_index = 0; sent = [] }

abbrev pub pairs_of : Option (List KvPair) → List KvPair
pairs_of none = []
pairs_of (some pairs) = pairs

-- A message is sent if it is not empty.
send : List String → List (List String) → List (List String)
send [] sent = sent
send (k ∷ missing) sent = (k ∷ missing) ∷ sent

pub round : Response → Watch → Watch
unfolding send difference
round list_failed w = record w { wait_index = 0 }
round (listed pairs last_index put_fails) w =
    if is_none pairs && put_fails then record w { wait_index = last_index } else record w {
      keys = new_key_set (pairs_of pairs);
      wait_index = last_index;
      sent = send (difference w.keys (new_key_set (pairs_of pairs))) w.sent;
    }

-- The rounds before the watch is stopped.
unfoldable pub watch : List Response → Watch → Watch
unfolding round
watch [] w = w
watch (response ∷ responses) w = watch responses (round response w)
