-- ===== src/Graph/Offers.antt =====
-- The names and types that NodeListener gathers, against what the discovered nodes list.
use rmw_dps.Prelude.{◌≡◌, refl, Bool, false, ◌||◌, ◌&&◌, List, [], ◌∷◌, arith}
use rmw_dps.Text.{Text, text_eq, text_eq→eq}
use rmw_dps.TextMap.{TextMap, TextSet, lookup, put, insert, contains, lookup-put}
use rmw_dps.Discovery.Topics.{Topic, Node}
use rmw_dps.Discovery.NodeListener.Difference.{elem}
use rmw_dps.Graph.{
  NamesAndTypes, insert_types, types_at, add_topics, add_nodes_topics, add_nodes_services,
  get_topic_names_and_types, get_service_names_and_types,
}

-- The type is among those of the topic.
abbrev pub offers : Text → Text → NamesAndTypes → Bool
offers topic type_name names_and_types = contains type_name (types_at topic names_and_types)

-- Some entry of the list has the topic and the type.
unfoldable pub lists : Text → Text → List Topic → Bool
lists topic type_name [] = false
lists topic type_name (t ∷ topics) =
    text_eq topic t.topic && elem type_name t.types || lists topic type_name topics

-- Some node publishes or subscribes to the topic with the type; some node has such a service.
unfoldable pub any_topic : Text → Text → TextMap Node → Bool
unfolding lists
any_topic topic type_name [] = false
any_topic topic type_name ((_, node) ∷ nodes) =
    lists topic type_name node.subscribers
    || (lists topic type_name node.publishers || any_topic topic type_name nodes)

unfoldable pub any_service : Text → Text → TextMap Node → Bool
unfolding lists
any_service topic type_name [] = false
any_service topic type_name ((_, node) ∷ nodes) =
    lists topic type_name node.services || any_service topic type_name nodes

contains-insert_types :
    (ty : Text) (names : List Text) (types : TextSet)
    → contains ty (insert_types names types) ≡ (elem ty names || contains ty types)
unfolding insert_types elem
contains-insert_types ty [] types = refl
contains-insert_types ty (n ∷ names) types =
    ground (arith, contains-insert_types ty names (insert n types), lookup-put n ty tt types)

pub offers-add_topics :
    (t ty : Text) (topics : List Topic) (m : NamesAndTypes)
    → offers t ty (add_topics topics m) ≡ (lists t ty topics || offers t ty m)
unfolding add_topics lists types_at
offers-add_topics t ty [] m = refl
offers-add_topics t ty (k ∷ topics) m = ground (
  arith,
  offers-add_topics t ty topics (put k.topic (insert_types k.types (types_at k.topic m)) m),
  lookup-put k.topic t (insert_types k.types (types_at k.topic m)) m,
  contains-insert_types ty k.types (types_at k.topic m),
  text_eq→eq t k.topic,
)

offers-add_nodes_topics :
    (t ty : Text) (nodes : TextMap Node) (m : NamesAndTypes)
    → offers t ty (add_nodes_topics nodes m) ≡ (any_topic t ty nodes || offers t ty m)
unfolding add_nodes_topics any_topic
offers-add_nodes_topics t ty [] m = refl
offers-add_nodes_topics t ty ((u, n) ∷ nodes) m = ground (
  arith,
  offers-add_nodes_topics t ty nodes (add_topics n.publishers (add_topics n.subscribers m)),
  offers-add_topics t ty n.publishers (add_topics n.subscribers m),
  offers-add_topics t ty n.subscribers m,
)

offers-add_nodes_services :
    (t ty : Text) (nodes : TextMap Node) (m : NamesAndTypes)
    → offers t ty (add_nodes_services nodes m) ≡ (any_service t ty nodes || offers t ty m)
unfolding add_nodes_services any_service
offers-add_nodes_services t ty [] m = refl
offers-add_nodes_services t ty ((u, n) ∷ nodes) m = ground (
  arith,
  offers-add_nodes_services t ty nodes (add_topics n.services m),
  offers-add_topics t ty n.services m,
)

-- get_topic_names_and_types has a type under a topic exactly if some discovered node publishes or
-- subscribes to the topic with that type, and get_service_names_and_types exactly if some discovered
-- node has the service with it.
pub names_and_types_lem :
    (topic type_name : Text) (nodes : TextMap Node)
    → (offers topic type_name (get_topic_names_and_types nodes) ≡ any_topic topic type_name nodes)
      × (offers topic type_name (get_service_names_and_types nodes)
          ≡ any_service topic type_name nodes)
unfolding types_at lookup
names_and_types_lem topic type_name nodes = (
  ground (arith, offers-add_nodes_topics topic type_name nodes []),
  ground (arith, offers-add_nodes_services topic type_name nodes []),
)
