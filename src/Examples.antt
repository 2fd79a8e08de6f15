-- ===== src/Examples.antt =====
-- Runs of the model, and the theorems at concrete inputs: a database in memory, and two owners.
mod Storage
mod Service
mod Clients
mod Startup
mod Consul
mod Watch
mod Process
mod Main
mod Wire
