-- ===== src/Expiration.antt =====
-- expiration: the registry of time-to-live checks (lock_pick.go) and the burglar that fills it from
-- the database (burglar.go).
pub mod LockPick
pub mod Check
pub mod Burglar
pub mod Ttl
