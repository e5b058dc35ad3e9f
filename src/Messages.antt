-- ===== src/Messages.antt =====
-- The serialization of messages by their introspection: TypeSupport of
-- rmw_dps_cpp/include/rmw_dps_cpp/TypeSupport.hpp and TypeSupport_impl.hpp beside it.
pub mod Members
pub mod TypeSupports
pub mod Fields
pub mod Serialize
pub mod Deserialize
pub mod Valid
pub mod Carry
pub mod Strings
pub mod Accepts
pub mod Languages
pub mod RoundTrip
pub mod Delivered
mod Tests
