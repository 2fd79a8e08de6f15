-- ===== src/Process.antt =====
-- cmd/locket: the process of the service. Config is its configuration, Startup what `main` does before
-- and around the group of its runners, Exit the shutdown that a handler asks for; Listener is the
-- runner of grpcserver/server.go.
pub mod Config
pub mod Host
pub mod Connection
pub mod Startup
pub mod Exit
pub mod Listener
