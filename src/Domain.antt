-- ===== src/Domain.antt =====
-- The records that the agents, the server and the page exchange: internal/domain.
pub mod Values
pub mod Topology
pub mod Envoy
pub mod Hop
pub mod Issues
pub mod Probe
pub mod Command
pub mod Validate
mod Examples
