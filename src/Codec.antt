-- ===== src/Codec.antt =====
-- crates/otap-codec/src/lib.rs: the encoder and the decoder of Transients.
pub mod Encoder
pub mod Decoder
pub mod RoundTrip
pub mod Sequence
