-- ===== src/CapnpRpc.antt =====
-- src/capnp_rpc.rs: Cap'n Proto messages built and read by hand.
pub mod Bytes
pub mod SegBuilder
pub mod Wire
pub mod Encode
pub mod Decode
