-- ===== src/Discovery/NodeListener/Coherent.antt =====
-- onDiscovery, and the cached sets of matched peers against discovered_nodes_.
use mathlib.Core.Path.{subst}
use mathlib.Core.Option.{some-injective}
use rmw_dps.Prelude.{
  ◌≡◌, refl, ◌∙◌, Bool, true, false, List, Option, none, some, arith, ap, if◌then◌else◌,
}
use rmw_dps.Text.{Text, text_eq}
use rmw_dps.TextMap.{TextMap}
use rmw_dps.Discovery.Topics.{Node, new_node, process_topics}
use rmw_dps.Discovery.NodeListener.{NodeInfo, update_nodes, old_node, discovered, on_discovery}
use rmw_dps.Discovery.NodeListener.Difference.{has_topic}
use rmw_dps.Discovery.NodeListener.Nodes.{old_node-update, old_node-erase}
use rmw_dps.Discovery.NodeListener.Matched.{IsMatched, update_counts-IsMatched}

-- What a node knows of the topics of another node's subscriptions and publishers.
abbrev pub subscribes : TextMap Node → Text → Text → Bool
subscribes nodes uuid t = has_topic t (old_node uuid nodes).subscribers

abbrev pub publishes : TextMap Node → Text → Text → Bool
publishes nodes uuid t = has_topic t (old_node uuid nodes).publishers

-- Each publisher is matched with exactly the nodes that subscribe to its topic, each subscription
-- with exactly those that publish on it, and the counts are the sizes of the sets.
pub record IsCoherent (s : NodeInfo) : Type 0 where
  pub of_publishers : IsMatched (subscribes s.discovered_nodes) s.publishers
  pub of_subscribers : IsMatched (publishes s.discovered_nodes) s.subscribers

if_subscribers :
    (b : Bool) (t : Text) (node old : Node)
    → has_topic t (if b then node else old).subscribers
      ≡ (if b then has_topic t node.subscribers else has_topic t old.subscribers)
if_subscribers true t node old = refl
if_subscribers false t node old = refl

if_publishers :
    (b : Bool) (t : Text) (node old : Node)
    → has_topic t (if b then node else old).publishers
      ≡ (if b then has_topic t node.publishers else has_topic t old.publishers)
if_publishers true t node old = refl
if_publishers false t node old = refl

module _ (uuid : Text) (payload : Bool) (node : Node) (s : NodeInfo)
    (update : (u : Text)
      → old_node u (update_nodes uuid payload node s.discovered_nodes).0
        ≡ (if text_eq u uuid then node else old_node u s.discovered_nodes)) where
  discovered-IsCoherent : IsCoherent s → IsCoherent (discovered uuid payload node s)
  unfolding discovered
  discovered-IsCoherent c = record {
    of_publishers =
        update_counts-IsMatched (subscribes s.discovered_nodes) _ uuid
          (old_node uuid s.discovered_nodes).subscribers node.subscribers s.publishers (λ t. refl)
          (λ u t.
            ap (λ (n : Node). has_topic t n.subscribers) (update u)
            ∙ if_subscribers (text_eq u uuid) t node (old_node u s.discovered_nodes))
          c.of_publishers;
    of_subscribers =
        update_counts-IsMatched (publishes s.discovered_nodes) _ uuid
          (old_node uuid s.discovered_nodes).publishers node.publishers s.subscribers (λ t. refl)
          (λ u t.
            ap (λ (n : Node). has_topic t n.publishers) (update u)
            ∙ if_publishers (text_eq u uuid) t node (old_node u s.discovered_nodes))
          c.of_subscribers;
  }

read_payload :
    (uuid : Text) (topics : List Text) (s s' : NodeInfo)
    → on_discovery uuid (some topics) s ≡ some s'
    → (node : Node) × (process_topics topics new_node ≡ some node)
      × (discovered uuid true node s ≡ s')
unfolding on_discovery
read_payload uuid topics s s' e = ground arith

-- When onDiscovery returns, the node is coherent if it was before: the sets of matched peers of its
-- publishers are the discovered nodes that subscribe to their topics, those of its subscriptions the
-- ones that publish them, and the counts are the sizes of the sets. The payload may be new, changed
-- or gone.
pub on_discovery-IsCoherent :
    (uuid : Text) (payload : Option (List Text)) (s s' : NodeInfo)
    → IsCoherent s
    → on_discovery uuid payload s ≡ some s'
    → IsCoherent s'
unfolding on_discovery
on_discovery-IsCoherent uuid none s s' c e = subst IsCoherent (some-injective _ _ e) (
    discovered-IsCoherent uuid false new_node s
      (λ u. old_node-erase u uuid new_node s.discovered_nodes) c)
on_discovery-IsCoherent uuid (some topics) s s' c e =
    let (node, read, same) = read_payload uuid topics s s' e in
    subst IsCoherent same (
      discovered-IsCoherent uuid true node s (λ u. old_node-update u uuid node s.discovered_nodes)
        c)
