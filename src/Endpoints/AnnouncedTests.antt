-- ===== src/Endpoints/AnnouncedTests.antt =====
-- A node that creates a publisher and a service, and the node that discovers it.
use mathlib.Core.List.{foldl}
use rmw_dps.Prelude.{
  Bool, not, ◌==◌, ◌++◌, length, ◌≡◌, refl, true, List, [], ◌∷◌, Option, none, some, map, arith,
}
use rmw_dps.Text.{Text, codes}
use rmw_dps.GuardCondition.{new_guard_condition}
use rmw_dps.Rmw.{is_ok}
use rmw_dps.Discovery.Names.{publisher_discovery_name, service_discovery_name, node_topics}
use rmw_dps.Discovery.Topics.{new_node}
use rmw_dps.Discovery.Topics.RoundTrip.{add_endpoint}
use rmw_dps.Discovery.NodeListener.{NodeInfo, discovered}
use rmw_dps.Cbor.Tx.{TxStream}
use rmw_dps.Cbor.Plain.{plain, plain-Laws}
use rmw_dps.Endpoints.Payload.{NodeImpl, add_discovery_topic}
use rmw_dps.Endpoints.Payload.Encoded.{encode_payload, on_discovery_bytes}
use rmw_dps.Endpoints.Publisher
use rmw_dps.Endpoints.Publisher.{create_publisher, advertise_publisher, fail_publisher}
use rmw_dps.Endpoints.Service.{create_service, advertise_service}
use rmw_dps.Endpoints.Announced.{
  Creation, a_publisher, a_service, endpoint_of, perform, perform-create_publisher, perform_all,
  on_discovery_bytes-perform_all,
}

abbrev unaware : NodeInfo
unaware = record {
  discovered_nodes = [];
  publishers = [];
  subscribers = [];
  graph_guard_condition = new_guard_condition;
}

-- A node that has just been created.
abbrev created_node : NodeImpl
created_node = record {
  has_node = true;
  discovery_payload = codes "namespace=/" ∷ codes "name=talker" ∷ [];
  announced = codes "namespace=/" ∷ codes "name=talker" ∷ [];
  discovery = unaware;
  heap = [];
}

abbrev creations : List Creation
creations =
    a_publisher
      (record {
        create_publication = true;
        init_publication = true;
        publisher_allocate = true;
        allocate = true;
      })
      1 (codes "/chatter") (codes "std_msgs::msg::dps_::String_")
    ∷ a_service
        (record {
          create_subscription = true;
          set_subscription_data = true;
          subscribe = true;
          service_allocate = true;
          allocate = true;
        })
        2 (codes "/sum") (codes "Sum_Request_") (codes "Sum_Response_")
    ∷ []

abbrev node_or : Option NodeImpl → NodeImpl
node_or none = created_node
node_or (some impl) = impl

abbrev talker : NodeImpl
talker = node_or (perform_all (λ topics. true) creations created_node)

on_discovery_bytes-perform_all_example :
    (s : TxStream) × (encode_payload plain talker.announced ≡ some s)
    × (on_discovery_bytes plain (codes "u1") s.buffer.written unaware
        ≡ some (
            discovered
              (codes "u1")
              true
              (foldl add_endpoint
                (record new_node { name = codes "talker"; namespace_ = codes "/" })
                (map endpoint_of creations))
              unaware))
unfolding create_publisher advertise_publisher create_service advertise_service add_discovery_topic
    is_ok publisher_discovery_name service_discovery_name node_topics
on_discovery_bytes-perform_all_example =
    on_discovery_bytes-perform_all plain-Laws (λ topics. true) creations (codes "talker")
      (codes "/") (codes "u1") unaware created_node talker refl refl refl (omega arith)
      (omega arith) (omega arith) (omega arith)

-- DPS refuses the payload with three entries.
abbrev refuses_three : List Text → Bool
refuses_three topics = not (length topics == 3)

abbrev all_calls : Publisher.Outcomes
all_calls = record {
  create_publication = true;
  init_publication = true;
  publisher_allocate = true;
  allocate = true;
}

abbrev second : Creation
second = a_publisher all_calls 2 (codes "/chatter") (codes "b")

-- The node after a first publisher that was not created.
abbrev refused_node : NodeImpl
refused_node =
    (create_publisher refuses_three all_calls 1 (codes "/lost") (codes "a") created_node).1

perform-create_publisher_example :
    (node_or (perform refuses_three second refused_node)).announced
    ≡ created_node.discovery_payload
      ++ publisher_discovery_name (codes "/lost") (codes "a")
        ∷ publisher_discovery_name (codes "/chatter") (codes "b")
        ∷ []
unfolding create_publisher advertise_publisher fail_publisher add_discovery_topic is_ok
perform-create_publisher_example =
    perform-create_publisher refuses_three all_calls 1 (codes "/lost") (codes "a") second
      created_node (node_or (perform refuses_three second refused_node)) refl refl
