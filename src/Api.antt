-- ===== src/Api.antt =====
-- The HTTP side: api/middleware (RateLimiter) and api/services (RouteService).
pub mod RateLimiter
pub mod RouteService
