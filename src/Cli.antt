-- ===== src/Cli.antt =====
-- The command line: cli.py.
pub mod Terminal
pub mod Options
pub mod Report
pub mod Commands
pub mod Documents
pub mod Saved
pub mod Exits
pub mod Accepts
pub mod Announced
pub mod Generated
pub mod Emitted
pub mod Plans
pub mod Workflow
pub mod Discover
pub mod Session
pub mod Overrides
