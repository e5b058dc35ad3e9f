-- ===== src/Endpoints.antt =====
-- The endpoints of a node: the discovery payload of rmw_dps_cpp/src/rmw_node.cpp, and the publishers,
-- the subscriptions, the clients and the services of rmw_publisher.cpp, rmw_subscription.cpp,
-- rmw_client.cpp and rmw_service.cpp in the same directory.
pub mod Heap
pub mod Payload
pub mod Publisher
pub mod Subscription
pub mod Client
pub mod Service
pub mod NodeHandle
pub mod Announced
mod Tests
mod ServiceTests
mod AnnouncedTests
