-- ===== src/Tcpclv4.antt =====
-- tcpclv4/src: the TCP convergence layer of RFC 9174.
pub mod Wire
pub mod Codec
mod Runs
