-- ===== src/Ws.antt =====
-- The websocket hub, server/ws.
pub mod Client
pub mod App
pub mod Sessions
