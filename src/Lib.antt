-- ===== src/Lib.antt =====
-- A model of rmw_dps_cpp, the ROS middleware over DPS (Distributed Publish Subscribe), and what is
-- proved of it.
--
-- A node keeps a discovery payload, a list of strings that says its name, its namespace and its
-- endpoints, and publishes it through DPS. Every other node gets the payload in
-- NodeListener::onDiscovery, reads it back, stores it in discovered_nodes_, and updates the sets of
-- matched peers of its own publishers and subscriptions. Messages and payloads are CBOR: a message is
-- written member by member, as its introspection describes it, and written again to a larger buffer if
-- the first one overflows. Data that DPS delivers is queued in a Listener; a thread in rmw_wait sleeps
-- until a Listener or a guard condition of its wait set is ready, and then takes the data and reads it.
-- A service keeps the publication of each request it has taken, until it acknowledges it with the
-- response.
--
--   Prelude          Boolean tests, lists and options.
--   Text, TextMap    std::string (find, rfind, substr) and std::map, std::set with string keys.
--   Rmw              return codes and node handles.
--   Context          rmw_dps_cpp/src/rmw_init.cpp
--   Cbor             rmw_dps_cpp/include/rmw_dps_cpp/CborStream.hpp: Cbor.Tx is TxStream, Cbor.Rx is
--                    RxStream, and Cbor.Codec the interface of the encoders and decoders of DPS, with
--                    the laws that the proofs use. Cbor.Plain is an instance of it, for the tests.
--   Messages         TypeSupport.hpp and TypeSupport_impl.hpp beside it: Messages.Members has the
--                    descriptions of messages and the messages, typed by them, Messages.Fields
--                    serialize_field and deserialize_field, Messages.Serialize and
--                    Messages.Deserialize the rest; Messages.Languages compares
--                    C with C++; Messages.TypeSupports is
--                    type_support_common.cpp and client_service_common.cpp of rmw_dps_cpp/src.
--   Exchange         publishing and taking: Exchange.Publish is rmw_publish.cpp and
--                    publish_common.cpp, Exchange.Typed ros_message_serialization.cpp, Exchange.Take
--                    rmw_take.cpp, Exchange.Requests rmw_request.cpp and rmw_response.cpp,
--                    Exchange.Serialized rmw_serialize.cpp, all in rmw_dps_cpp/src.
--   Qos              qos_common.cpp there, and the profiles that endpoints report.
--   GuardCondition   rmw_dps_cpp/src/types/guard_condition.hpp, rmw_guard_condition.cpp and
--                    rmw_trigger_guard_condition.cpp
--   Listener         rmw_dps_cpp/include/rmw_dps_cpp/Listener.hpp
--   Wait             rmw_dps_cpp/src/rmw_wait.cpp: Wait.State is the state and check_wait_set_for_data,
--                    Wait the three phases (attach, wait, detach) and rmw_wait itself. Wait.Sets is
--                    rmw_wait_set.cpp there.
--   Discovery.Names  the entries that rmw_node.cpp, rmw_publisher.cpp, rmw_subscription.cpp,
--                    rmw_client.cpp and rmw_service.cpp of rmw_dps_cpp/src build, and the type names
--                    of type_support_common.hpp there.
--   Discovery.Topics the loop of onDiscovery over a payload and process_topic_info, in
--                    rmw_dps_cpp/include/rmw_dps_cpp/custom_node_info.hpp.
--   Discovery.NodeListener
--                    the rest of onDiscovery and topic_difference there, and the writes to
--                    publishers_ and subscribers_ in rmw_publisher.cpp and rmw_subscription.cpp.
--   Graph            the queries of NodeListener and rmw_dps_cpp/src/rmw_count.cpp; Graph.Demangle is
--                    demangle.cpp, Graph.Results is rmw_node_info_and_types.cpp and rmw_node_names.cpp.
--   Endpoints        Endpoints.Payload is the writer of the payload in rmw_node.cpp
--                    (Endpoints.Payload.Encoded its bytes, and how onDiscovery reads them),
--                    Endpoints.Publisher, Endpoints.Subscription, Endpoints.Client and
--                    Endpoints.Service the creation and destruction in rmw_publisher.cpp,
--                    rmw_subscription.cpp, rmw_client.cpp and rmw_service.cpp, with the objects that
--                    are allocated (Endpoints.Heap), and Endpoints.NodeHandle that of nodes in
--                    rmw_node.cpp. Endpoints.Announced runs several creations. Which calls of DPS and
--                    of the allocators succeed is a parameter.
--   Gids             rmw_get_gid_for_publisher.cpp and rmw_compare_gids_equal.cpp.
--   Availability     rmw_service_server_is_available.cpp and names_common.cpp.
--
-- Conventions. A std::string is a list of bytes (Text). A pointer is a number, `none` for a null one. An
-- exception, or the dereference of a null pointer, is `none` or a constructor of the result type. A
-- std::map is an association list in the order of its keys. A size_t that can wrap has its wrap-around
-- written out (Discovery.Topics.sub_size). What other threads do while rmw_wait waits is a list of
-- events, and what they do between the steps of its loops that detach is a list of such lists; each
-- block under a mutex is one step.
--
-- Fuel. Discovery.Topics.types_loop, the `while` over the commas of an entry, has fuel: the length of
-- the entry and two more, which is enough since each round starts behind the comma of the round before.
--
-- Not modelled: DPS itself, its threads and its delivery, and its CBOR codec, which is a parameter with
-- laws; the copies and moves of streams, which are values here, and the texts of log messages; the
-- allocation of memory, except where a branch of the code depends on it. Strings of C are taken to be
-- not null.
pub mod Prelude
pub mod Text
pub mod TextMap
pub mod Qos
pub mod Rmw
pub mod GuardCondition
pub mod Listener
pub mod Messages
pub mod Wait
pub mod Context
pub mod Discovery
pub mod Graph
pub mod Endpoints
pub mod Exchange
pub mod Gids
pub mod Availability
pub mod Cbor
