-- ===== src/Codec.antt =====
-- The codecs of v3/codec, and in Legacy those of v2/codec.
pub mod Stream
pub mod Crypto
pub mod Negotiate
pub mod Output
pub mod Body
pub mod Json
pub mod Legacy
pub mod Buffered
