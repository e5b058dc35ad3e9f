-- ===== src/Discovery/Topics.antt =====
-- A discovery payload read back: NodeListener::Topic, NodeListener::Node, process_topic_info and
-- the loop of onDiscovery over the topics, in
-- rmw_dps_cpp/include/rmw_dps_cpp/custom_node_info.hpp. `none` is the exception of a `substr` past
-- the end of its text.
pub mod Split
pub mod Total
pub mod Dispatch
pub mod Entry
pub mod Kinds
pub mod RoundTrip
mod Tests
use Prim.Native.Nat.{◌%◌, ◌^◌}
use rmw_dps.Prelude.{
  ◌>>=◌, ℕ, zero, suc, ◌+◌, ◌-◌, Bool, true, false, ◌&&◌, List, [], ◌∷◌, ◌++◌, Option, none, some,
  length,
}
use rmw_dps.Text.{Text, codes, text_eq, find, find_at, substr, substr_from}
use rmw_dps.Discovery.Names.{
  dps_namespace_prefix, dps_name_prefix, dps_subscriber_prefix, dps_publisher_prefix,
  dps_service_prefix, dps_client_prefix, types_separator,
}

pub record Topic : Type 0 where
  pub topic : Text
  pub types : List Text

pub record Node : Type 0 where
  pub name : Text
  pub namespace_ : Text
  pub subscribers : List Topic
  pub publishers : List Topic
  pub services : List Topic
  pub clients : List Topic

-- Node node;
abbrev pub new_node : Node
new_node = record {
  name = [];
  namespace_ = [];
  subscribers = [];
  publishers = [];
  services = [];
  clients = [];
}

-- a - b in a 64-bit size_t
unfoldable pub sub_size : ℕ → ℕ → ℕ
sub_size a b = (a + 2 ^ 64 - b) % 2 ^ 64

-- `while (pos != std::string::npos)`, one type for each round; the fuel bounds the rounds.
unfoldable pub types_loop : ℕ → Text → Option ℕ → Option (List Text)
types_loop fuel s none = some []
types_loop zero s (some pos) = none
types_loop (suc fuel) s (some pos) = elim (find_at (codes ",") s pos) [
  | some end_pos ↦ do
    type_name ← substr s pos (sub_size end_pos pos)
    rest ← types_loop fuel s (some (end_pos + 1))
    some (type_name ∷ rest)
  | none ↦ do type_name ← substr_from s pos; rest ← types_loop fuel s none; some (type_name ∷ rest)
]

-- Each round starts past the comma of the one before, so the length of the text bounds them.
abbrev pub types_of : Text → ℕ → Option (List Text)
types_of s pos = types_loop (suc (suc (length s))) s (some pos)

-- The part of process_topic_info that runs when the prefix was found; `pos` is its end.
unfoldable pub topic_at : Text → ℕ → Option Topic
topic_at s pos = elim (find types_separator s) [
  | some end_pos ↦ do
    topic ← substr s pos (sub_size end_pos pos)
    types ← types_of s (end_pos + length types_separator)
    some (record { topic = topic; types = types })
  | none ↦ do
    topic ← substr_from s pos
    types ← types_of s pos
    some (record { topic = topic; types = types })
]

unfoldable pub process_topic_info : Text → Text → List Topic → Option (Bool × List Topic)
unfolding topic_at
process_topic_info topic_str prefix topics = elim (find prefix topic_str) [
  | some pos ↦ do
    topic ← topic_at topic_str (pos + length prefix)
    some (true, topics ++ topic ∷ [])
  | none ↦ some (false, topics)
]

-- The last four tests of one round: each `continue` ends the round.
unfoldable pub process_clients : Text → Node → Option Node
process_clients topic node = do
  (found, topics) ← process_topic_info topic dps_client_prefix node.clients
  some (record node { clients = topics })

unfoldable pub process_services : Text → Node → Option Node
unfolding process_clients
process_services topic node = do
  (found, topics) ← process_topic_info topic dps_service_prefix node.services
  elim found [
    | true ↦ some (record node { services = topics })
    | false ↦ process_clients topic node
  ]

unfoldable pub process_publishers : Text → Node → Option Node
unfolding process_services
process_publishers topic node = do
  (found, topics) ← process_topic_info topic dps_publisher_prefix node.publishers
  elim found [
    | true ↦ some (record node { publishers = topics })
    | false ↦ process_services topic node
  ]

unfoldable pub process_subscribers : Text → Node → Option Node
unfolding process_publishers
process_subscribers topic node = do
  (found, topics) ← process_topic_info topic dps_subscriber_prefix node.subscribers
  elim found [
    | true ↦ some (record node { subscribers = topics })
    | false ↦ process_publishers topic node
  ]

unfoldable pub process_name : Text → Node → Option Node
unfolding process_subscribers
process_name topic node = elim (find dps_name_prefix topic) [
  | some pos ↦ do
    name ← substr_from topic (pos + length dps_name_prefix)
    some (record node { name = name })
  | none ↦ process_subscribers topic node
]

-- One round of the loop over the payload.
unfoldable pub process_topic : Text → Node → Option Node
unfolding process_name
process_topic topic node = elim (find dps_namespace_prefix topic) [
  | some pos ↦ do
    namespace_ ← substr_from topic (pos + length dps_namespace_prefix)
    some (record node { namespace_ = namespace_ })
  | none ↦ process_name topic node
]

unfoldable pub process_topics : List Text → Node → Option Node
process_topics [] node = some node
process_topics (topic ∷ topics) node = do
  node' ← process_topic topic node
  process_topics topics node'
