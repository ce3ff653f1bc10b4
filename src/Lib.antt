-- ===== src/Lib.antt =====
-- Verification of PILOTS, a logistics back end in TypeScript: shipment tracking, job queue, WebSocket
-- layer, rate limiter, cache, webhooks, access and secrets, secured queries, router and validation,
-- route planning and billing.
--
-- The parts and the files that model them:
-- + engines/tracking: Tracking. An append-only log of events per shipment with a chain of hashes
--   (event-log.ts: Tracking/Log), its reduction to a state (state-machine.ts: Tracking/Reduce), the
--   cache of reduced states that commands.ts empties and queries.ts fills (Tracking/Cache), and the
--   checks that run on state and events (exception-detector.ts: Tracking/Exceptions).
-- + core/queue: Queue. queue.ts keeps jobs, lists and dead-letter lists in Redis (Queue/Types,
--   Queue/Ops); worker.ts runs them (Queue/Worker) with a limit on concurrency (Queue/Worker/Loop) and
--   is stopped (Queue/Worker/Stops). Queue/Retry, Queue/Dlq and Queue/Order hold what is shown of them.
-- + core/ws: Ws. connection.ts parses and builds frames over bytes (Ws/Frame), rooms.ts keeps who is
--   in which room (Ws/Rooms).
-- + api/middleware/rate-limiter.ts: Api/RateLimiter, the limits and the sliding window of one key;
--   api/services/route.service.ts: Api/RouteService, the life of a route.
-- + core/cache/cache.ts: Core/Cache; core/webhooks/webhook-handler.ts, which uses it for its marks:
--   Core/Webhooks.
-- + core/auth: jwt.ts is Core/Jwt; authentication-manager.ts is Core/Auth, with password.ts
--   (Core/Auth/Password) and the rows of its tables (Core/Auth/Tables). It signs and verifies with
--   Core/Jwt. Core/Auth/Calls has calls of it one after another. middleware.ts, which lets a request
--   pass by its token, is Core/Authenticate.
-- + core/crypto: Core/Crypto, the cipher and Base64 that field-encryption.ts (Core/Crypto/Field) and
--   key-rotation.ts (Core/Crypto/Rotation) share.
-- + core/db/query-builder-secured.ts: Core/SecuredQuery, with the statements that write in
--   Core/SecuredQuery/Writes; core/http/router.ts: Core/Router; core/validation/schema.ts:
--   Core/Validation.
-- + engines/route-optimizer: Routing. branch-and-bound.ts is Routing/Search, greedy-init.ts, whose
--   result it starts from, Routing/Greedy; both plan on Routing/Types.
-- + engines/pricing: Billing.
-- + clients/truck/src/queue.ts: Truck, the telemetry that waits to be synced.
-- + Prelude has the shared names, tests, lists and maps; Samples runs the definitions and applies the
--   theorems at small inputs.
--
-- Functions keep their names in snake_case (`appendEvent` is append_event, `processJob` is
-- process_job), types theirs. State is passed explicitly: a table is the list of its rows in the
-- order of insertion, a Redis hash or string is a map from keys, a sorted set the list of its scores,
-- a socket the list of what is written. An operation runs to its end before the next one begins, with
-- three exceptions where the parts between two awaits are separate steps: the loop of the worker
-- (Queue/Worker/Loop), two appends to a log (Tracking/Log/Race) and two requests at the rate limiter
-- (Api/RateLimiter/Overlap). Times are milliseconds (seconds in Core/Cache) and
-- arguments, as are ids that the database or `randomUUID` gives.
--
-- Code of others is a parameter: SHA-256 and the JSON text that it digests (`digest`), HMAC, PBKDF2,
-- AES-GCM and Base64 (`Node`, `Cipher`), `JSON.parse` and `JSON.stringify` (`encode`, `decode`, `copy`,
-- `parse`), the connectors of the webhooks (`works`), what a test of a query means (`Meaning`) and
-- how a quote in the name of a column is read (`read`), what the database returns (`run`), regular
-- expressions (`Patterns`) and floats: the distance test (`is_jump`), the arithmetic of
-- Api/RouteService (`Floats`), of Routing (`Metric`) and of Billing (`Rounding`). Whether Redis answers
-- is an argument where the code goes on without it. Weights, volumes, numbers of a form and units of
-- a bill are whole numbers.
--
-- Fuel: parse_frames takes the length of the buffer; a frame has two bytes at least, so this is enough,
-- and more changes nothing. branch_and_bound takes the number of nodes that the time limit allows;
-- a child has one stop less to serve, so the stack runs empty. The greedy start takes the number of stops,
-- each round but the last serves one. All other functions recurse on their data.
--
-- Not modelled: the set-up of clients, logging, SQL text, the HTTP server, the relay of rooms over
-- Redis, patterns of cache keys, and the parts named as such in the manifest (fraud and analytics,
-- allocation, the statistics of route planning, integrations, scheduled jobs, the rest of the truck
-- client).
pub mod Prelude
pub mod Tracking
pub mod Queue
pub mod Ws
pub mod Api
pub mod Core
pub mod Truck
pub mod Routing
pub mod Billing
pub mod Samples
