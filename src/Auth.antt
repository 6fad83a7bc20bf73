-- ===== src/Auth.antt =====
-- internal/auth, server/api/middlewares/auth.go and worker/app/interceptor.go: who is let in.
pub mod Claims
pub mod Request
pub mod FromJwt
pub mod Middleware
pub mod Worker
