-- ===== src/Discovery/NodeListener.antt =====
-- NodeListener of rmw_dps_cpp/include/rmw_dps_cpp/custom_node_info.hpp: what a node knows of the
-- others, and the cached sets of matched endpoints of its own publishers and subscriptions. The
-- mutexes make each locked block one step. A UUID enters as the text of DPS_UUIDToString.
pub mod Difference
pub mod Rounds
pub mod Nodes
pub mod Matched
pub mod Coherent
pub mod Endpoints
mod Tests
use Prim.Native.Nat.{Ordering}
use rmw_dps.Prelude.{
  ◌>>=◌, ℕ, suc, ◌+◌, Bool, true, false, not, ◌&&◌, List, [], ◌∷◌, ◌++◌, Option, none, some, map,
  length, if◌then◌else◌, is_some, ◌==◌,
}
use rmw_dps.Text.{Text, text_eq}
use rmw_dps.TextMap.{TextMap, TextSet, lookup, put, erase, contains, insert, keys}
use rmw_dps.GuardCondition.{GuardCondition, trigger}
use rmw_dps.Discovery.Topics.{Topic, Node, new_node, process_topics}

-- CustomPublisherInfo and CustomSubscriberInfo, as far as discovery goes: the pointer, the set of
-- matched peers (subscriptions_, publishers_) and its size as it was last stored.
pub record MatchedInfo : Type 0 where
  pub pointer : ℕ
  pub matched : TextSet
  pub matched_count : ℕ

abbrev pub Infos : Type 0
Infos = TextMap (List MatchedInfo)

-- The part of CustomNodeInfo and of its NodeListener that discovery reads and writes.
pub record NodeInfo : Type 0 where
  pub discovered_nodes : TextMap Node
  pub publishers : Infos
  pub subscribers : Infos
  pub graph_guard_condition : GuardCondition

-- operator== of the vectors of types, of Topic, of the vectors of topics and of Node.
unfoldable pub texts_eq : List Text → List Text → Bool
texts_eq [] [] = true
texts_eq [] (b ∷ bs) = false
texts_eq (a ∷ as') [] = false
texts_eq (a ∷ as') (b ∷ bs) = text_eq a b && texts_eq as' bs

unfoldable pub topic_eq : Topic → Topic → Bool
unfolding texts_eq
topic_eq a b = text_eq a.topic b.topic && texts_eq a.types b.types

unfoldable pub topics_eq : List Topic → List Topic → Bool
unfolding topic_eq
topics_eq [] [] = true
topics_eq [] (b ∷ bs) = false
topics_eq (a ∷ as') [] = false
topics_eq (a ∷ as') (b ∷ bs) = topic_eq a b && topics_eq as' bs

unfoldable pub node_eq : Node → Node → Bool
unfolding topics_eq
node_eq a b =
    topics_eq a.clients b.clients
    && (topics_eq a.services b.services
        && (topics_eq a.publishers b.publishers
            && (topics_eq a.subscribers b.subscribers
                && (text_eq a.name b.name && text_eq a.namespace_ b.namespace_))))

-- The set of the topics' names.
unfoldable pub topic_names : List Topic → TextSet
topic_names [] = []
topic_names (t ∷ topics) = insert t.topic (topic_names topics)

-- std::set_difference of two sets, in order.
unfoldable pub set_difference : TextSet → TextSet → List Text
set_difference [] b = []
set_difference ((k, _) ∷ a) b =
    let rest = set_difference a b in if contains k b then rest else k ∷ rest

-- topic_difference: the names that are new, and those that are gone.
unfoldable pub topic_difference : List Topic → List Topic → List Text × List Text
unfolding topic_names set_difference
topic_difference old_topics new_topics = (
  set_difference (topic_names new_topics) (topic_names old_topics),
  set_difference (topic_names old_topics) (topic_names new_topics),
)

-- One endpoint loses or gets a peer; the count is stored anew.
unfoldable pub remove_peer : Text → MatchedInfo → MatchedInfo
remove_peer uuid info =
    let peers = erase uuid info.matched in
    record info { matched = peers; matched_count = length peers }

unfoldable pub add_peer : Text → MatchedInfo → MatchedInfo
add_peer uuid info =
    let peers = insert uuid info.matched in
    record info { matched = peers; matched_count = length peers }

-- impl->publishers_[topic]: an empty set if the key is not there.
unfoldable pub infos_at : Text → Infos → List MatchedInfo
infos_at topic infos = elim (lookup topic infos) [ none ↦ [] | some is ↦ is ]

-- `new CustomPublisherInfo()`, `new CustomSubscriberInfo()`
abbrev pub new_info : ℕ → MatchedInfo
new_info pointer = record { pointer = pointer; matched = []; matched_count = 0 }

-- rmw_create_publisher: impl->publishers_[topic_name].insert(info). What is done to the endpoints of
-- a topic does not depend on their order, which is that of the pointers.
unfoldable pub insert_info : Text → ℕ → Infos → Infos
insert_info topic pointer infos = put topic (new_info pointer ∷ infos_at topic infos) infos

unfoldable pub without_pointer : ℕ → List MatchedInfo → List MatchedInfo
without_pointer pointer [] = []
without_pointer pointer (i ∷ is) =
    let rest = without_pointer pointer is in if i.pointer == pointer then rest else i ∷ rest

-- rmw_destroy_publisher: impl->publishers_[publisher->topic_name].erase(info)
unfoldable pub erase_info : Text → ℕ → Infos → Infos
unfolding without_pointer
erase_info topic pointer infos = put topic (without_pointer pointer (infos_at topic infos)) infos

-- `for (auto topic : topics) for (auto pub : impl->publishers_[topic]) …`
unfoldable pub for_topics : (MatchedInfo → MatchedInfo) → List Text → Infos → Infos
unfolding infos_at
for_topics f [] infos = infos
for_topics f (topic ∷ topics) infos =
    for_topics f topics (put topic (map f (infos_at topic infos)) infos)

-- "Update cached subscriber counts", and likewise for publishers.
unfoldable pub update_counts : Text → List Topic → List Topic → Infos → Infos
unfolding topics_eq topic_difference remove_peer add_peer for_topics
update_counts uuid old_topics new_topics infos =
    if topics_eq old_topics new_topics
    then infos
    else let (added, removed) = topic_difference old_topics new_topics in
      for_topics (add_peer uuid) added (for_topics (remove_peer uuid) removed infos)

-- The block under mutex_: discovered_nodes_ afterwards, and `trigger`. `payload` says that there is
-- one.
unfoldable pub update_nodes : Text → Bool → Node → TextMap Node → TextMap Node × Bool
unfolding node_eq
update_nodes uuid true node nodes = elim (lookup uuid nodes) [
  | none ↦ (put uuid node nodes, true)
  | some known ↦ if node_eq known node then (nodes, false) else (put uuid node nodes, true)
]
update_nodes uuid false node nodes = (erase uuid nodes, contains uuid nodes)

-- What was known of the node before: `Node old`.
unfoldable pub old_node : Text → TextMap Node → Node
old_node uuid nodes = elim (lookup uuid nodes) [ none ↦ new_node | some known ↦ known ]

-- The rest of onDiscovery once the payload is read.
unfoldable pub discovered : Text → Bool → Node → NodeInfo → NodeInfo
discovered uuid payload node s =
    let old = old_node uuid s.discovered_nodes in
    let (nodes, changed) = update_nodes uuid payload node s.discovered_nodes in
    record {
      discovered_nodes = nodes;
      publishers = update_counts uuid old.subscribers node.subscribers s.publishers;
      subscribers = update_counts uuid old.publishers node.publishers s.subscribers;
      graph_guard_condition =
          if changed then (trigger s.graph_guard_condition).0 else s.graph_guard_condition;
    }

-- onDiscovery: `topics` is what the payload holds, if there is one. `none` is an exception.
unfoldable pub on_discovery : Text → Option (List Text) → NodeInfo → Option NodeInfo
on_discovery uuid none s = some (discovered uuid false new_node s)
on_discovery uuid (some topics) s = do
  node ← process_topics topics new_node
  some (discovered uuid true node s)
