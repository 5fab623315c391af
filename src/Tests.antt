-- ===== src/Tests.antt =====
-- Concrete pods, an API server in memory, and the theorems at them.
mod Data
mod Detection
mod Texts
mod Memory
mod Runs
mod Backends
mod Cli
mod Listing
mod Start
mod Copies
mod Live
mod Versions
mod Lives
mod Registries
mod Rest
mod Cooldown
