-- ===== src/Expiration/Ttl.antt =====
-- The time for which a check waits, as an int64 number of nanoseconds.
use locket.Prelude.{Bool-cases, inl, inr, leb, ◌⊎◌, ℕ, ◌≡◌, ◌≤◌, ◌<◌, ◌*◌, ◌-◌, ◌^◌, arith}
use locket.Prelude.Int64.{pos, negsuc}
use locket.Db.{Lock}
use locket.Expiration.LockPick.{ttl_duration}

-- A TTL of at most 9223372036 seconds gives exactly that many nanoseconds.
ttl_duration_exact :
    (lock : Lock) (n : ℕ)
    → lock.ttl_in_seconds ≡ pos n
    → n ≤ 9223372036
    → ttl_duration lock ≡ pos (n * 1_000_000_000)
unfolding ttl_duration
ttl_duration_exact lock n e h = ground (arith, e)

-- A TTL above 9223372036 seconds, up to 18446744073, wraps around to a negative duration.
ttl_duration_overflow :
    (lock : Lock) (n : ℕ)
    → lock.ttl_in_seconds ≡ pos n
    → 9223372036 < n
    → n ≤ 18446744073
    → (m : ℕ) × (ttl_duration lock ≡ negsuc m)
unfolding ttl_duration
ttl_duration_overflow lock n e h k = (2 ^ 64 - 1 - n * 1_000_000_000, ground (arith, e))

-- Up to a TTL of 18446744073 seconds: one of at most 9223372036 seconds is waited for exactly, as that
-- many nanoseconds, and one above it wraps around to a negative duration.
pub ttl_duration_cases :
    (lock : Lock) (n : ℕ)
    → lock.ttl_in_seconds ≡ pos n
    → n ≤ 18446744073
    → ((n ≤ 9223372036) × (ttl_duration lock ≡ pos (n * 1_000_000_000)))
      ⊎ ((9223372036 < n) × ((m : ℕ) × (ttl_duration lock ≡ negsuc m)))
ttl_duration_cases lock n e h = elim (Bool-cases (leb n 9223372036)) [
  | inl small ↦
      let le : n ≤ 9223372036 = ground (arith, small) in inl (le, ttl_duration_exact lock n e le)
  | inr large ↦
      let lt : 9223372036 < n = ground (arith, large) in
      inr (lt, ttl_duration_overflow lock n e lt h)
]
