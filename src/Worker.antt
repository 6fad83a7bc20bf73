-- ===== src/Worker.antt =====
-- The worker's side.
pub mod Plan
pub mod Docker
pub mod Server
pub mod Http
pub mod Images
pub mod Cache
pub mod Git
pub mod Reconnect
