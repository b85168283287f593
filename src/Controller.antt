-- ===== src/Controller.antt =====
-- The controller (tsanet/controller): its RPC client.
pub mod RpcClient
pub mod Parse
pub mod Cli
pub mod Stats
mod Examples
