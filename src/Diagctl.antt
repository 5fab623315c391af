-- ===== src/Diagctl.antt =====
-- cmd/diagctl/main.go: the command line tool that lists, shows and deletes diagnoses.
pub mod Usage
pub mod Console
pub mod Listing
pub mod Resolve
pub mod Arguments
pub mod Commands
pub mod Steps
pub mod Deletes
pub mod Exits
pub mod Listed
pub mod Invocation
