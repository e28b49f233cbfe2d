-- ===== src/Tcpclv4/Codec.antt =====
-- tcpclv4/src/codec.rs: `Message` and `MessageCodec`.
pub mod Octet
pub mod MessageType
pub mod SessionTerm
pub mod Reject
pub mod Refuse
pub mod SegmentFlags
pub mod Ack
pub mod Extension
pub mod SessionInit
pub mod Segment
pub mod MessageCodec
pub mod RoundTrip
pub mod Stable
pub mod Safe
pub mod Framing
