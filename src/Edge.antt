-- ===== src/Edge.antt =====
-- The connector between the tunnel and the edge.
pub mod Error
pub mod Event
pub mod Configuration
pub mod Control
pub mod Connector
pub mod Runtime
pub mod Drain
pub mod Discovery
pub mod H2
pub mod Quic
pub mod Serve
