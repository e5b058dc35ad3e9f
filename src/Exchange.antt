-- ===== src/Exchange.antt =====
-- Publishing and taking: rmw_publish.cpp, publish_common.cpp, ros_message_serialization.cpp,
-- rmw_take.cpp, rmw_request.cpp and rmw_response.cpp of rmw_dps_cpp/src.
pub mod Typed
pub mod Publish
pub mod Take
pub mod Delivery
pub mod Lost
pub mod Serialized
pub mod Kept
pub mod Requests
mod Tests
