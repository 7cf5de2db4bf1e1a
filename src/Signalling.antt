-- ===== src/Signalling.antt =====
-- internal/signalling: frames on a stream, the fields inside a payload, the negotiation of a version
-- and the gate in front of a peer that has not authenticated.
pub mod Stream
pub mod Frame
pub mod Fields
pub mod Conn
pub mod Negotiation
