-- ===== src/Cbor.antt =====
-- The CBOR streams of rmw_dps_cpp/include/rmw_dps_cpp/CborStream.hpp.
pub mod Codec
pub mod Tx
pub mod Rx
pub mod Buffer
pub mod Carry
pub mod Retry
pub mod Plain
