-- ===== src/Hub.antt =====
-- The hub (tsanet/hub): sessions, the device registry, subscriptions, the dispatcher and the server.
pub mod Session
pub mod Registry
pub mod State
pub mod Subscriptions
pub mod Dispatcher
pub mod Server
pub mod Cli
mod Examples
