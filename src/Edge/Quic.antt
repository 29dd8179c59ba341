-- ===== src/Edge/Quic.antt =====
-- src/edge/quic/: the QUIC connection to the edge.
pub mod Quiche
pub mod Quinn
