-- ===== src/Templates.antt =====
-- templates/__init__.py: the environment that renders, and its filters.
pub mod Filters
pub mod Engine
