-- ===== src/Interview.antt =====
-- The interview: interview/__init__.py.
pub mod Questions
pub mod Assemble
pub mod Engine
pub mod Prompt
pub mod Prompted
pub mod Assembled
pub mod Hostname
pub mod Sound
pub mod Canned
pub mod Complete
pub mod Proxies
pub mod Cooperative
pub mod Finish
