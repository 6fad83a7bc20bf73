-- ===== src/Parser.antt =====
-- The repository configuration, server/parser.
pub mod Config
pub mod Env
