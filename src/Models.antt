-- ===== src/Models.antt =====
-- The data models: models/__init__.py.
pub mod Snapshot
pub mod Answers
pub mod Config
pub mod Document
pub mod Dump
pub mod Load
pub mod Dumped
pub mod Loaded
