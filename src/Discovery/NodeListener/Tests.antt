-- ===== src/Discovery/NodeListener/Tests.antt =====
-- Runs of the NodeListener of custom_node_info.hpp, and the theorems about it at concrete inputs.
use rmw_dps.Prelude.{true, false, Bool, ◌≡◌, refl, List, [], ◌∷◌, some, none, not, ◌&&◌}
use rmw_dps.Text.{Text, codes, text_eq, find, find_at, substr, substr_from, starts_with}
use rmw_dps.TextMap.{lookup, put}
use rmw_dps.GuardCondition.{new_guard_condition, trigger}
use rmw_dps.Discovery.Topics.{
  Topic, Node, new_node, process_topic_info, process_topics, process_topic, types_loop, sub_size,
  topic_at,
}
use rmw_dps.Discovery.NodeListener.{
  Infos, NodeInfo, new_info, insert_info, erase_info, update_counts, update_nodes, old_node,
  discovered, on_discovery, infos_at, topic_difference,
}
use rmw_dps.Discovery.NodeListener.Difference.{has_topic, elem, elem-topic_difference}
use rmw_dps.Discovery.NodeListener.Nodes.{on_discovery-TriggersOnChange, TriggersOnChange}
use mathlib.Core.Logic.{◌↔◌}
use rmw_dps.Discovery.NodeListener.Matched.{IsMatched}
use rmw_dps.Discovery.NodeListener.Coherent.{IsCoherent, subscribes, on_discovery-IsCoherent}
use rmw_dps.Discovery.NodeListener.Endpoints.{
  insert_info-IsMatched, insert_info-IsMatched_iff, erase_info-IsMatched, with_pointer,
}

-- A node with one publisher on /chatter and nothing discovered.
abbrev talker : NodeInfo
talker = record {
  discovered_nodes = [];
  publishers = (codes "/chatter", new_info 1 ∷ []) ∷ [];
  subscribers = [];
  graph_guard_condition = new_guard_condition;
}

abbrev listener_payload : List Text
listener_payload = codes "name=listener" ∷ codes "subscriber&topic=/chatter&types=a" ∷ []

abbrev listener_node : Node
listener_node = record new_node {
  name = codes "listener";
  subscribers = record { topic = codes "/chatter"; types = codes "a" ∷ [] } ∷ [];
}

-- The talker once it has heard of a subscription on its topic.
abbrev matched_talker : NodeInfo
matched_talker = record {
  discovered_nodes = (codes "u1", listener_node) ∷ [];
  publishers =
      (
        codes "/chatter",
        record { pointer = 1; matched = (codes "u1", tt) ∷ []; matched_count = 1 } ∷ [],
      )
      ∷ [];
  subscribers = [];
  graph_guard_condition = record { has_triggered = true; condition = none };
}

matched_talker_test : on_discovery (codes "u1") (some listener_payload) talker ≡ some matched_talker
unfolding on_discovery discovered update_nodes old_node update_counts process_topics process_topic
    process_topic_info types_loop topic_at find find_at substr substr_from starts_with sub_size put
    lookup trigger text_eq
matched_talker_test = refl

IsMatched-nil : (peer : Text → Text → Bool) → IsMatched peer []
unfolding infos_at lookup
IsMatched-nil peer = record { exact = λ uuid t. tt; counted = λ t. tt }

IsCoherent-talker : IsCoherent talker
unfolding insert_info put infos_at lookup old_node has_topic
IsCoherent-talker = record {
  of_publishers =
      insert_info-IsMatched (subscribes []) (codes "/chatter") 1 [] (λ uuid. refl)
        (IsMatched-nil (subscribes []));
  of_subscribers = IsMatched-nil _;
}

on_discovery-IsCoherent_example : IsCoherent matched_talker
on_discovery-IsCoherent_example =
    on_discovery-IsCoherent (codes "u1") (some listener_payload) talker matched_talker
      IsCoherent-talker matched_talker_test

-- A second publisher on the topic, made after the subscription became known.
insert_info-IsMatched_iff_example :
    IsMatched
      (subscribes matched_talker.discovered_nodes)
      (insert_info (codes "/chatter") 2 matched_talker.publishers)
    ↔ ((uuid : Text) → subscribes matched_talker.discovered_nodes uuid (codes "/chatter") ≡ false)
insert_info-IsMatched_iff_example =
    insert_info-IsMatched_iff (subscribes matched_talker.discovered_nodes) (codes "/chatter") 2
      matched_talker.publishers
      (on_discovery-IsCoherent (codes "u1") (some listener_payload) talker matched_talker
        IsCoherent-talker matched_talker_test).of_publishers

on_discovery-TriggersOnChange_example : TriggersOnChange (codes "u1") talker matched_talker
on_discovery-TriggersOnChange_example =
    on_discovery-TriggersOnChange (codes "u1") (some listener_payload) talker matched_talker
      matched_talker_test

-- One of two publishers on a topic is removed.
abbrev two_publishers : Infos
two_publishers = insert_info (codes "/chatter") 2 (insert_info (codes "/chatter") 1 [])

erase_info-IsMatched_example :
    IsMatched (subscribes []) (erase_info (codes "/chatter") 1 two_publishers)
    × (with_pointer 2 (infos_at (codes "/chatter") (erase_info (codes "/chatter") 1 two_publishers))
        ≡ new_info 2 ∷ [])
unfolding old_node lookup has_topic insert_info put infos_at with_pointer text_eq
erase_info-IsMatched_example =
    erase_info-IsMatched (subscribes []) (codes "/chatter") 1 two_publishers (codes "/chatter") 2 (
      insert_info-IsMatched (subscribes []) (codes "/chatter") 2
        (insert_info (codes "/chatter") 1 []) (λ uuid. refl)
        (insert_info-IsMatched (subscribes []) (codes "/chatter") 1 [] (λ uuid. refl)
          (IsMatched-nil (subscribes []))))

abbrev old_topics : List Topic
old_topics = listener_node.subscribers

elem-topic_difference_example :
    (elem (codes "/chatter") (topic_difference old_topics []).0
      ≡ (has_topic (codes "/chatter") [] && not (has_topic (codes "/chatter") old_topics)))
    × (elem (codes "/chatter") (topic_difference old_topics []).1
        ≡ (has_topic (codes "/chatter") old_topics && not (has_topic (codes "/chatter") [])))
elem-topic_difference_example = elem-topic_difference (codes "/chatter") old_topics []
