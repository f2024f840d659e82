-- ===== src/Federation.antt =====
-- The central server's store: internal/federation.
pub mod Store
pub mod Ids
pub mod Snapshots
pub mod Commands
pub mod Links
pub mod Owner
pub mod Merge
pub mod Probes
pub mod Associations
mod Examples
