-- ===== src/Rpc.antt =====
-- rpc/src: the Cap'n Proto RPC layer that runs on a control or RPC stream.
pub mod Error
pub mod Io
pub mod Client
pub mod Server
pub mod Incoming
pub mod Tunnel
pub mod Quic
