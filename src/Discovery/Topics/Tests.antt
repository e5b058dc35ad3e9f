-- ===== src/Discovery/Topics/Tests.antt =====
-- Payloads read by the code of custom_node_info.hpp, and the theorems about it at concrete inputs.
use mathlib.Core.List.{foldl}
use rmw_dps.Prelude.{◌≡◌, refl, List, [], ◌∷◌, some, arith, true}
use rmw_dps.Text.{Text, codes, text_eq, find_at, substr, substr_from}
use rmw_dps.Discovery.Names.{publisher_discovery_name, client_discovery_name, create_type_name}
use rmw_dps.Discovery.Topics.{new_node, process_topic_info, process_topics, types_loop, sub_size}
use rmw_dps.Discovery.Topics.Total.{Total, process_topics-Total}
use rmw_dps.Discovery.Topics.RoundTrip.{
  Endpoint, publisher, client, add_endpoint, payload, process_topics-payload,
}

abbrev chatter : Text
chatter = codes "/chatter"

abbrev string_type : Text
string_type = codes "std_msgs::msg::dps_::String_"

-- One publisher and one client, as a talker has them.
abbrev endpoints : List Endpoint
endpoints =
    publisher chatter string_type
    ∷ client (codes "/add") (codes "srv::dps_::Add_Request_") (codes "srv::dps_::Add_Response_")
    ∷ []

type_name_test : create_type_name (codes "std_msgs::msg") (codes "String") ≡ string_type
unfolding create_type_name text_eq
type_name_test = refl

publisher_entry_test :
    process_topic_info (codes "publisher&topic=/chatter&types=a,b") (codes "publisher&topic=") []
    ≡ some (true, record { topic = chatter; types = codes "a" ∷ codes "b" ∷ [] } ∷ [])
unfolding process_topic_info types_loop find_at substr substr_from sub_size
publisher_entry_test = refl

-- Without the separator the topic is read once more, as its own type.
bare_entry_test :
    process_topic_info (codes "publisher&topic=/chatter") (codes "publisher&topic=") []
    ≡ some (true, record { topic = chatter; types = chatter ∷ [] } ∷ [])
unfolding process_topic_info types_loop find_at substr substr_from sub_size
bare_entry_test = refl

talker_payload_is_read :
    process_topics (payload (codes "talker") (codes "/") endpoints) new_node
    ≡ some (
        foldl add_endpoint
          (record new_node { name = codes "talker"; namespace_ = codes "/" })
          endpoints)
unfolding publisher_discovery_name client_discovery_name
talker_payload_is_read =
    process_topics-payload (codes "talker") (codes "/") endpoints (omega arith) (omega arith)

process_topics-Total_example :
    Total (process_topics (codes "publisher&topic=" ∷ codes "&types=name=" ∷ []) new_node)
process_topics-Total_example =
    process_topics-Total (codes "publisher&topic=" ∷ codes "&types=name=" ∷ []) new_node
      (omega arith)
