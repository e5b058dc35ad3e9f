-- ===== src/Graph.antt =====
-- What a node tells of the graph: the queries of NodeListener in
-- rmw_dps_cpp/include/rmw_dps_cpp/custom_node_info.hpp, and the functions of
-- rmw_dps_cpp/src/rmw_count.cpp over them. A null node is `none`; null data, which is dereferenced,
-- makes the call `none`.
pub mod Offers
pub mod ByNode
pub mod Counts
pub mod Demangle
pub mod Results
mod Tests
use rmw_dps.Prelude.{
  ℕ, zero, suc, ◌+◌, Bool, ◌&&◌, List, [], ◌∷◌, Option, none, some, map, if◌then◌else◌,
}
use rmw_dps.Text.{Text, text_eq}
use rmw_dps.TextMap.{TextMap, TextSet, lookup, put, insert}
use rmw_dps.Rmw.{RmwRet, ok, error, Handle}
use rmw_dps.Discovery.Topics.{Topic, Node}
use rmw_dps.Discovery.NodeListener.{NodeInfo}

unfoldable pub get_discovered_nodes : TextMap Node → List Node
get_discovered_nodes nodes = map (λ e. e.1) nodes

-- std::count_if over the topics of one node.
unfoldable pub count_topics : Text → List Topic → ℕ
count_topics topic_name [] = 0
count_topics topic_name (t ∷ topics) =
    let rest = count_topics topic_name topics in
    if text_eq t.topic topic_name then suc rest else rest

unfoldable pub count_subscribers : Text → TextMap Node → ℕ
count_subscribers topic_name [] = 0
count_subscribers topic_name ((_, node) ∷ nodes) =
    count_topics topic_name node.subscribers + count_subscribers topic_name nodes

unfoldable pub count_publishers : Text → TextMap Node → ℕ
count_publishers topic_name [] = 0
count_publishers topic_name ((_, node) ∷ nodes) =
    count_topics topic_name node.publishers + count_publishers topic_name nodes

unfoldable pub count_services : Text → TextMap Node → ℕ
count_services topic_name [] = 0
count_services topic_name ((_, node) ∷ nodes) =
    count_topics topic_name node.services + count_services topic_name nodes

abbrev pub NamesAndTypes : Type 0
NamesAndTypes = TextMap TextSet

-- set.insert(types.begin(), types.end())
unfoldable pub insert_types : List Text → TextSet → TextSet
insert_types [] types = types
insert_types (type_name ∷ names) types = insert_types names (insert type_name types)

-- names_and_types[topic]
unfoldable pub types_at : Text → NamesAndTypes → TextSet
types_at topic names_and_types = elim (lookup topic names_and_types) [
  | none ↦ []
  | some types ↦ types
]

-- `for (auto it : topics) names_and_types[it.topic].insert(…)`
unfoldable pub add_topics : List Topic → NamesAndTypes → NamesAndTypes
unfolding types_at insert_types
add_topics [] names_and_types = names_and_types
add_topics (t ∷ topics) names_and_types =
    add_topics topics
      (put t.topic (insert_types t.types (types_at t.topic names_and_types)) names_and_types)

-- std::find_if: the first node, in the order of the UUIDs, of that name and namespace.
unfoldable pub find_node : Text → Text → TextMap Node → Option Node
find_node name namespace_ [] = none
find_node name namespace_ ((_, node) ∷ nodes) =
    let rest = find_node name namespace_ nodes in
    if text_eq node.name name && text_eq node.namespace_ namespace_ then some node else rest

unfoldable pub get_subscriber_names_and_types_by_node : Text → Text → TextMap Node → NamesAndTypes
get_subscriber_names_and_types_by_node name namespace_ nodes =
    elim (find_node name namespace_ nodes) [
      | none ↦ []
      | some node ↦ add_topics node.subscribers []
    ]

unfoldable pub get_publisher_names_and_types_by_node : Text → Text → TextMap Node → NamesAndTypes
get_publisher_names_and_types_by_node name namespace_ nodes =
    elim (find_node name namespace_ nodes) [ none ↦ [] | some node ↦ add_topics node.publishers [] ]

unfoldable pub get_service_names_and_types_by_node : Text → Text → TextMap Node → NamesAndTypes
get_service_names_and_types_by_node name namespace_ nodes = elim (find_node name namespace_ nodes) [
  | none ↦ []
  | some node ↦ add_topics node.services []
]

unfoldable pub get_client_names_and_types_by_node : Text → Text → TextMap Node → NamesAndTypes
get_client_names_and_types_by_node name namespace_ nodes = elim (find_node name namespace_ nodes) [
  | none ↦ []
  | some node ↦ add_topics node.clients []
]

-- The loop over the nodes, from what was gathered before.
unfoldable pub add_nodes_topics : TextMap Node → NamesAndTypes → NamesAndTypes
add_nodes_topics [] names_and_types = names_and_types
add_nodes_topics ((_, node) ∷ nodes) names_and_types =
    add_nodes_topics nodes
      (add_topics node.publishers (add_topics node.subscribers names_and_types))

abbrev pub get_topic_names_and_types : TextMap Node → NamesAndTypes
get_topic_names_and_types nodes = add_nodes_topics nodes []

unfoldable pub add_nodes_services : TextMap Node → NamesAndTypes → NamesAndTypes
add_nodes_services [] names_and_types = names_and_types
add_nodes_services ((_, node) ∷ nodes) names_and_types =
    add_nodes_services nodes (add_topics node.services names_and_types)

abbrev pub get_service_names_and_types : TextMap Node → NamesAndTypes
get_service_names_and_types nodes = add_nodes_services nodes []

-- rmw_count_publishers and rmw_count_subscribers: the return code and `*count`, if it is written.
unfoldable pub rmw_count_publishers : Option (Handle NodeInfo) → Text → Option (RmwRet × Option ℕ)
rmw_count_publishers none topic_name = some (error, none)
rmw_count_publishers (some node) topic_name = elim node.data_ [
  | none ↦ none
  | some impl ↦ some (ok, some (count_publishers topic_name impl.discovered_nodes))
]

unfoldable pub rmw_count_subscribers : Option (Handle NodeInfo) → Text → Option (RmwRet × Option ℕ)
rmw_count_subscribers none topic_name = some (error, none)
rmw_count_subscribers (some node) topic_name = elim node.data_ [
  | none ↦ none
  | some impl ↦ some (ok, some (count_subscribers topic_name impl.discovered_nodes))
]
