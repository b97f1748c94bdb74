-- ===== src/Examples.antt =====
-- Sample plans, tests, and one run of each theorem.
mod Sample
mod Validation
mod Operator
mod Interview
mod Generators
mod Cli
mod Discovery
mod Session
pub mod Workflow
pub mod Models
pub mod Saved
pub mod Machine
