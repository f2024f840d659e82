-- ===== src/Observed.antt =====
-- What the gateways' logs say about a probe: internal/observed.
pub mod Values
pub mod Log
pub mod Attempts
