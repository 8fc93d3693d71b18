-- ===== src/Connection.antt =====
-- src/erizo/WebRtcConnection.cpp and MediaDefinitions.h: the connection that owns two descriptions
-- and at most two transports.
pub mod State
pub mod Media
pub mod Negotiation
pub mod Operations
pub mod Lifetime
pub mod Interleaving
pub mod Packets
pub mod Bounded
pub mod Serving
pub mod Sending
pub mod RedWalk
pub mod StripRed
pub mod Progress
