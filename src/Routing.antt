-- ===== src/Routing.antt =====
-- engines/route-optimizer: the planning of delivery routes.
pub mod Types
pub mod Search
pub mod Greedy
