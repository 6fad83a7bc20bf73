-- ===== src/Api.antt =====
-- server/api: the handlers that decide who may do what. A request's body and parameters come decoded or
-- with the error of the decoder; an answer is what is rendered.
pub mod Answer
pub mod Builds
pub mod Env
pub mod Logs
pub mod Teams
pub mod Accounts
pub mod Providers
pub mod Mounts
pub mod Repos
pub mod Stats
pub mod Router
pub mod Settings
