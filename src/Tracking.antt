-- ===== src/Tracking.antt =====
-- Shipment tracking (engines/tracking): events, their reduction to a state, the hash chain of the
-- event log, and the cache in front of it.
pub mod Types
pub mod Reduce
pub mod Log
pub mod Cache
pub mod Exceptions
