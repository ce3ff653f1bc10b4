-- ===== src/Core.antt =====
-- Services that the others share: core/cache/cache.ts (Cache) and core/webhooks (Webhooks).
pub mod Cache
pub mod Webhooks
pub mod Jwt
pub mod Auth
pub mod SecuredQuery
pub mod Crypto
pub mod Router
pub mod Validation
pub mod Authenticate
