-- ===== src/Generators.antt =====
-- The generators: generators/__init__.py.
pub mod Domain
pub mod DnsRecords
pub mod FirewallRules
pub mod Documents
pub mod Disk
pub mod Payloads
pub mod All
pub mod Rounds
pub mod Loop
pub mod Written
pub mod Working
pub mod Addresses
pub mod Records
pub mod Hosts
pub mod Values
pub mod Templates
