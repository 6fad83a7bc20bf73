-- ===== src/Tests.antt =====
-- Concrete inputs and the theorems applied to them.
mod Data
mod Scheduling
mod Parsing
mod Hub
mod Hooks
mod Running
mod Storing
mod Access
mod Signing
mod Serving
mod Chain
mod Accounts
mod Teams
mod Handlers
mod Reconnecting
mod Watching
mod Stopping
