-- ===== src/Tunnel.antt =====
-- internal/tunnel: the two ends of the tunnel and what runs between them.
pub mod Net
pub mod Framed
pub mod Protocol
pub mod Saying
pub mod Server
pub mod Client
pub mod Relay
pub mod Session
pub mod Delivery
