-- ===== src/Protocol.antt =====
-- The wire protocol: messages, frames, connections and the security handshake (tsanet/protocol).
pub mod Value
pub mod Messages
pub mod Codec
pub mod Transport
pub mod Security
mod Examples
