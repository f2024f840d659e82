-- ===== src/Kube.antt =====
-- The agent's side of a probe: internal/kube.
pub mod Logs
pub mod Probe
pub mod Readers
