-- ===== src/Discovery.antt =====
-- The discovery of a host: discovery/__init__.py.
pub mod Host
pub mod Firewall
pub mod Docker
pub mod System
pub mod Timed
pub mod Tls
pub mod Observed
pub mod Sntp
pub mod Clock
pub mod TimeSync
pub mod Network
pub mod Dns
pub mod Duo
pub mod Aggregator
pub mod Machine
pub mod Commands
pub mod Dropped
pub mod Budget
pub mod Collected
pub mod Sections
pub mod Realms
pub mod Tried
pub mod Reported
pub mod Egress
pub mod Shielded
pub mod Offset
pub mod Legible
pub mod Whole
pub mod Resolution
pub mod Rows
pub mod Peers
pub mod Ready
pub mod Accepted
pub mod Storable
