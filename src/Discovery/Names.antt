-- ===== src/Discovery/Names.antt =====
-- The strings of a discovery payload: the prefixes of rmw_dps_cpp/src/namespace_prefix.cpp, the
-- entries that create_node, rmw_create_publisher, rmw_create_subscription, rmw_create_client and
-- rmw_create_service build from them, and the type name of rmw_dps_cpp/src/type_support_common.hpp.
use rmw_dps.Prelude.{List, [], ◌∷◌, ◌++◌, if◌then◌else◌}
use rmw_dps.Text.{Text, codes, text_eq}

abbrev pub dps_namespace_prefix : Text
dps_namespace_prefix = codes "namespace="

abbrev pub dps_name_prefix : Text
dps_name_prefix = codes "name="

abbrev pub dps_subscriber_prefix : Text
dps_subscriber_prefix = codes "subscriber&topic="

abbrev pub dps_publisher_prefix : Text
dps_publisher_prefix = codes "publisher&topic="

abbrev pub dps_service_prefix : Text
dps_service_prefix = codes "service&topic="

abbrev pub dps_client_prefix : Text
dps_client_prefix = codes "client&topic="

-- The text between a topic and its types.
abbrev pub types_separator : Text
types_separator = codes "&types="

-- create_node: the first two entries of a payload.
unfoldable pub node_topics : Text → Text → List Text
node_topics name namespace_ = (dps_namespace_prefix ++ namespace_) ∷ (dps_name_prefix ++ name) ∷ []

-- rmw_create_publisher: info->discovery_name_
unfoldable pub publisher_discovery_name : Text → Text → Text
publisher_discovery_name topic_name type_name =
    dps_publisher_prefix ++ (topic_name ++ (types_separator ++ type_name))

-- rmw_create_subscription: info->discovery_name_
unfoldable pub subscription_discovery_name : Text → Text → Text
subscription_discovery_name topic_name type_name =
    dps_subscriber_prefix ++ (topic_name ++ (types_separator ++ type_name))

-- rmw_create_client: info->discovery_name_
unfoldable pub client_discovery_name : Text → Text → Text → Text
client_discovery_name service_name request_type_name response_type_name =
    dps_client_prefix
    ++ (service_name
        ++ (types_separator ++ (request_type_name ++ (codes "," ++ response_type_name))))

-- rmw_create_service: info->discovery_name_
unfoldable pub service_discovery_name : Text → Text → Text → Text
service_discovery_name service_name request_type_name response_type_name =
    dps_service_prefix
    ++ (service_name
        ++ (types_separator ++ (request_type_name ++ (codes "," ++ response_type_name))))

-- _create_type_name, for members that are not null.
unfoldable pub create_type_name : Text → Text → Text
create_type_name message_namespace message_name =
    (if text_eq message_namespace [] then [] else message_namespace ++ codes "::")
    ++ (codes "dps_::" ++ (message_name ++ codes "_"))
