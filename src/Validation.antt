-- ===== src/Validation.antt =====
-- The plan-time rules: validation/__init__.py.
pub mod Version
pub mod Stops
pub mod HardStops
pub mod Rules
pub mod Plan
pub mod Report
