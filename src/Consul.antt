-- ===== src/Consul.antt =====
-- The consul client code at the root of the repository: session.go, lock.go, presence.go,
-- disappearance_watcher.go and registration_runner.go. The consul client library is outside this
-- repository: its calls are a parameter (`Session`), or their answers are events.
pub mod Session
pub mod Lock
pub mod Presence
pub mod Watcher
pub mod Registration
