-- ===== src/Graph/Tests.antt =====
-- Runs of the graph queries, and the theorems about them at concrete inputs.
use rmw_dps.Prelude.{
  ℕ, ◌==◌, ◌+◌, ◌≡◌, ◌≢◌, refl, Bool, true, [], ◌∷◌, some, arith, ◌⊎◌, if◌then◌else◌,
}
use rmw_dps.Text.{Text, codes, c_str, text_eq, find, rfind, substr, starts_with}
use rmw_dps.TextMap.{TextMap, lookup}
use rmw_dps.GuardCondition.{new_guard_condition}
use rmw_dps.Rmw.{RmwRet, ok, bad_alloc}
use rmw_dps.Discovery.Topics.{Topic, Node, new_node, sub_size}
use rmw_dps.Discovery.Names.{create_type_name}
use rmw_dps.Discovery.NodeListener.{NodeInfo, update_nodes}
use rmw_dps.Graph.{
  NamesAndTypes, get_topic_names_and_types, get_service_names_and_types, count_publishers,
  count_subscribers, count_services, count_topics, rmw_count_publishers,
}
use rmw_dps.Graph.Offers.{offers, any_topic, any_service, names_and_types_lem}
use rmw_dps.Graph.ByNode.{NoneNamed, IsFirst, ByNode, by_node_lem}
use rmw_dps.Graph.Counts.{update_nodes-counts}
use rmw_dps.Graph.Demangle.{suffix_loop, demangle_service_type_only}
use rmw_dps.Graph.Demangle.RoundTrip.{demangle_if_ros_type-create_type_name}
use rmw_dps.Graph.Demangle
use rmw_dps.Graph.Demangle.Services.{demangle_service_type_only-create_type_name}
use rmw_dps.Rmw.{is_ok}
use rmw_dps.Graph.Results.{Out, copy_data_to_results, rmw_get_node_names}
use rmw_dps.Graph.Results.Copies.{results, copy_data_to_results_lem, rmw_get_node_names_lem}

abbrev chatter : Topic
chatter = record { topic = codes "/chatter"; types = codes "a" ∷ codes "b" ∷ [] }

abbrev talker : Node
talker = record new_node { name = codes "talker"; publishers = chatter ∷ [] }

abbrev nodes : TextMap Node
nodes = (codes "u1", talker) ∷ (codes "u2", record new_node { subscribers = chatter ∷ [] }) ∷ []

abbrev impl : NodeInfo
impl = record {
  discovered_nodes = nodes;
  publishers = [];
  subscribers = [];
  graph_guard_condition = new_guard_condition;
}

count_test :
    rmw_count_publishers (some (record { ours = true; data_ = some impl })) (codes "/chatter")
    ≡ some (ok, some 1)
unfolding rmw_count_publishers count_publishers count_topics text_eq
count_test = refl

-- A name with `_Request_` that does not end with it is taken for a service's type.
middle_suffix_test :
    demangle_service_type_only (λ s a b. s) (codes "dps_::Add_Request_Id_") ≡ some (codes "Add")
unfolding demangle_service_type_only find rfind starts_with substr sub_size
middle_suffix_test = refl

names_and_types_lem_example :
    (offers (codes "/chatter") (codes "b") (get_topic_names_and_types nodes)
      ≡ any_topic (codes "/chatter") (codes "b") nodes)
    × (offers (codes "/chatter") (codes "b") (get_service_names_and_types nodes)
        ≡ any_service (codes "/chatter") (codes "b") nodes)
names_and_types_lem_example = names_and_types_lem (codes "/chatter") (codes "b") nodes

update_nodes-counts_example :
    (count_publishers (codes "/chatter") (update_nodes (codes "u0") true talker nodes).0
      ≡ count_topics (codes "/chatter") talker.publishers
        + count_publishers (codes "/chatter") nodes)
    × (count_subscribers (codes "/chatter") (update_nodes (codes "u0") true talker nodes).0
        ≡ count_topics (codes "/chatter") [] + count_subscribers (codes "/chatter") nodes)
    × (count_services (codes "/chatter") (update_nodes (codes "u0") true talker nodes).0
        ≡ count_topics (codes "/chatter") [] + count_services (codes "/chatter") nodes)
unfolding lookup text_eq
update_nodes-counts_example = update_nodes-counts (codes "/chatter") (codes "u0") talker nodes refl

by_node_lem_example :
    (NoneNamed (codes "talker") [] nodes
      × ByNode (codes "/chatter") (codes "b") (codes "talker") [] nodes [] [] [] [])
    ⊎ ((node : Node) × IsFirst (codes "talker") [] nodes node
        × ByNode
            (codes "/chatter")
            (codes "b")
            (codes "talker")
            []
            nodes
            node.subscribers
            node.publishers
            node.services
            node.clients)
by_node_lem_example = by_node_lem (codes "/chatter") (codes "b") (codes "talker") [] nodes

-- `std_msgs::msg` becomes `std_msgs/msg/`; any other text is kept.
abbrev slashes : Text → Text → Text → Text
slashes s a b = if text_eq s (codes "std_msgs::msg::") then codes "std_msgs/msg/" else s

demangle_if_ros_type-create_type_name_example :
    Demangle.demangle_if_ros_type slashes
      (create_type_name (codes "std_msgs::msg") (codes "String"))
    ≡ some (codes "std_msgs/msg/String")
unfolding create_type_name text_eq find starts_with
demangle_if_ros_type-create_type_name_example =
    demangle_if_ros_type-create_type_name slashes (codes "std_msgs::msg") (codes "String") refl
      (omega arith)

demangle_service_type_only-create_type_name_example :
    (demangle_service_type_only slashes (create_type_name [] (codes "Add_Request"))
      ≡ some (codes "Add"))
    × (demangle_service_type_only slashes (create_type_name [] (codes "Add_Response"))
        ≡ some (codes "Add"))
unfolding create_type_name text_eq find starts_with
demangle_service_type_only-create_type_name_example =
    demangle_service_type_only-create_type_name slashes [] (codes "Add") refl (omega arith)
      (omega arith)

-- The second copy of a string fails.
abbrev one_copy : ℕ → Bool
one_copy k = k == 0

abbrev topics : NamesAndTypes
topics = (codes "/chatter", (codes "a", tt) ∷ []) ∷ []

copy_data_to_results_lem_example :
    (r : RmwRet × Out) × (copy_data_to_results one_copy
        (λ k. ok)
        ok
        (Demangle.demangle_if_ros_type slashes)
        []
        topics
      ≡ some r)
    × ((r ≡ (ok, results (λ s. s) topics)) ⊎ ((r.0 ≢ ok) × (r.1 ≡ [])))
unfolding is_ok Demangle.demangle_if_ros_type Demangle.last
copy_data_to_results_lem_example =
    copy_data_to_results_lem one_copy (λ k. ok) (Demangle.demangle_if_ros_type slashes) (λ s. s) ok
      [] topics ((refl, tt), tt)

rmw_get_node_names_lem_example :
    (rmw_get_node_names one_copy
        (λ k. ok)
        (some (record { ours = true; data_ = some impl }))
        ok
        ok
        ([], [])
      ≡ some (ok, (codes "talker" ∷ [] ∷ [], [] ∷ [] ∷ [])))
    ⊎ (rmw_get_node_names one_copy
          (λ k. ok)
          (some (record { ours = true; data_ = some impl }))
          ok
          ok
          ([], [])
        ≡ some (bad_alloc, ([], [])))
unfolding c_str
rmw_get_node_names_lem_example = rmw_get_node_names_lem one_copy (λ k. ok) impl ([], [])
