-- ===== src/Ws.antt =====
-- The WebSocket layer: core/ws/connection.ts (Frame) and core/ws/rooms.ts (Rooms).
pub mod Frame
pub mod Rooms
