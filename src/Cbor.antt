-- ===== src/Cbor.antt =====
-- The crate `hardy-cbor` (cbor/src): the item heads of its decoder and the encoder that writes them.
pub mod Item
pub mod Bytes
pub mod Encode
pub mod Minor
pub mod Head
mod Runs
