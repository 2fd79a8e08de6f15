-- ===== src/Consul/Watcher/Reports.antt =====
-- Which keys the watcher reports, and how often.
use locket.Prelude.{
  ℕ, ◌+◌, String, ◌≡◌, ◌≢◌, refl, Bool, true, false, ◌&&◌, ◌||◌, not, none, some, List, [], ◌∷◌,
  ◌==◌, if◌then◌else◌, arith, eq_iff, Bool-cases, inl, inr, ◌∙◌,
}
use locket.Consul.Watcher.{
  KvPair, Response, list_failed, listed, KeySet, has, insert, new_key_set, difference, Watch,
  new_watch, send, round, watch,
}

-- A listing has the key, and a session holds it.
abbrev pub is_held : List KvPair → String → Bool
is_held [] k = false
is_held (pair ∷ pairs) k = (not (pair.session == "") && pair.key == k) || is_held pairs k

-- The listings that the watcher goes by: not those that failed, nor those without the prefix if it
-- could not be put there.
abbrev pub accepted : List Response → List (List KvPair)
accepted [] = []
accepted (list_failed ∷ responses) = accepted responses
accepted (listed none i true ∷ responses) = accepted responses
accepted (listed none i false ∷ responses) = [] ∷ accepted responses
accepted (listed (some pairs) i b ∷ responses) = pairs ∷ accepted responses

-- How often the key was held in a listing and not in the next.
abbrev pub disappearances : Bool → String → List (List KvPair) → ℕ
disappearances before k [] = 0
disappearances before k (pairs ∷ listings) =
    (if before && not (is_held pairs k) then 1 else 0) + disappearances (is_held pairs k) k listings

abbrev pub count : String → List String → ℕ
count k [] = 0
count k (j ∷ keys) = (if j == k then 1 else 0) + count k keys

abbrev pub reports : String → List (List String) → ℕ
reports k [] = 0
reports k (message ∷ sent) = count k message + reports k sent

has-new_key_set : (pairs : List KvPair) (k : String) → has (new_key_set pairs) k ≡ is_held pairs k
unfolding new_key_set
has-new_key_set [] k = refl
has-new_key_set (pair ∷ pairs) k = ground (arith, has-new_key_set pairs k, eq_iff pair.key k)

-- No key stands twice.
abbrev IsDistinct : KeySet → Type 0
IsDistinct keys = (k : String) → count k keys ≡ (if has keys k then 1 else 0)

insert-IsDistinct : (j : String) (keys : KeySet) → IsDistinct keys → IsDistinct (insert j keys)
unfolding insert
insert-IsDistinct j keys d k = ground (arith, d k, eq_iff j k)

new_key_set-IsDistinct : (pairs : List KvPair) → IsDistinct (new_key_set pairs)
unfolding new_key_set
new_key_set-IsDistinct [] k = refl
new_key_set-IsDistinct (pair ∷ pairs) k = elim (Bool-cases (pair.session == "")) [
  | inl e ↦ rw e (new_key_set-IsDistinct pairs k)
  | inr e ↦ rw e (insert-IsDistinct pair.key (new_key_set pairs) (new_key_set-IsDistinct pairs) k)
]

count-difference :
    (a b : KeySet) (k : String) → count k (difference a b) ≡ (if has b k then 0 else count k a)
unfolding difference
count-difference [] b k = ground arith
count-difference (j ∷ a) b k = ground (arith, count-difference a b k, eq_iff j k)

reports-send :
    (k : String) (missing : List String) (sent : List (List String))
    → reports k (send missing sent) ≡ count k missing + reports k sent
unfolding send
reports-send k [] sent = omega arith
reports-send k (j ∷ missing) sent = refl

-- A listing that the watcher goes by.
accept :
    (k : String) (pairs : List KvPair) (w : Watch)
    → IsDistinct w.keys
    → reports k (send (difference w.keys (new_key_set pairs)) w.sent)
      ≡ reports k w.sent + (if has w.keys k && not (is_held pairs k) then 1 else 0)
accept k pairs w d = ground (
  arith,
  reports-send k (difference w.keys (new_key_set pairs)) w.sent,
  count-difference w.keys (new_key_set pairs) k,
  has-new_key_set pairs k,
  d k,
)

watch_accounts :
    (responses : List Response) (w : Watch) (k : String)
    → IsDistinct w.keys
    → reports k (watch responses w).sent
      ≡ reports k w.sent + disappearances (has w.keys k) k (accepted responses)
unfolding watch round new_key_set
watch_accounts [] w k d = omega arith
watch_accounts (list_failed ∷ responses) w k d = watch_accounts responses _ k d
watch_accounts (listed none i true ∷ responses) w k d = watch_accounts responses _ k d
watch_accounts (listed none i false ∷ responses) w k d =
    omega (
      arith,
      watch_accounts responses (round (listed none i false) w) k (λ j. refl),
      accept k [] w d,
    )
watch_accounts (listed (some pairs) i b ∷ responses) w k d =
    watch_accounts responses (round (listed (some pairs) i b) w) k (new_key_set-IsDistinct pairs)
    ∙ ground (arith, accept k pairs w d, has-new_key_set pairs k)

-- A message reports something.
abbrev pub AllFull : List (List String) → Type 0
AllFull [] = Unit
AllFull (message ∷ sent) = (message ≢ []) × AllFull sent

send-AllFull :
    (missing : List String) (sent : List (List String)) → AllFull sent → AllFull (send missing sent)
unfolding send
send-AllFull [] sent h = h
send-AllFull (k ∷ missing) sent h = (λ e. (cc), h)

watch-AllFull :
    (responses : List Response) (w : Watch) → AllFull w.sent → AllFull (watch responses w).sent
unfolding watch round
watch-AllFull [] w h = h
watch-AllFull (list_failed ∷ responses) w h = watch-AllFull responses _ h
watch-AllFull (listed none i true ∷ responses) w h = watch-AllFull responses _ h
watch-AllFull (listed none i false ∷ responses) w h =
    watch-AllFull responses _ (send-AllFull (difference w.keys (new_key_set [])) w.sent h)
watch-AllFull (listed (some pairs) i b ∷ responses) w h =
    watch-AllFull responses _ (send-AllFull (difference w.keys (new_key_set pairs)) w.sent h)

-- Whatever consul answers, up to any round of its loop the watcher has reported each key exactly as
-- often as it was held by a session in one accepted listing and not in the next: failed listings, and
-- those without the prefix that it could not put there, neither lose a disappearance nor make one up.
-- It sends no empty message.
pub watch-reports :
    (responses : List Response)
    → ((k : String)
        → reports k (watch responses new_watch).sent ≡ disappearances false k (accepted responses))
      × AllFull (watch responses new_watch).sent
watch-reports responses = (
  λ k. omega (arith, watch_accounts responses new_watch k (λ j. refl)),
  watch-AllFull responses new_watch tt,
)
