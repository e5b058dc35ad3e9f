-- ===== src/Discovery/NodeListener/Nodes.antt =====
-- discovered_nodes_ after one payload: what is known of each node, and whether it changed.
use mathlib.Core.Path.{subst}
use rmw_dps.Prelude.{
  >>=-eq-some, List, Option, none, some, refl, ◌⊎◌, ◌∙◌, Bool-cases, inl, inr, ◌≡◌, ◌≢◌, Bool, true,
  false, arith, if◌then◌else◌,
}
use rmw_dps.Text.{Text, text_eq, text_eq→eq, text_eq_refl}
use rmw_dps.TextMap.{TextMap, lookup, lookup-put, lookup-erase}
use rmw_dps.GuardCondition.{trigger}
use rmw_dps.Discovery.Topics.{Node, new_node, process_topics}
use rmw_dps.Discovery.NodeListener.{NodeInfo, update_nodes, old_node, discovered, on_discovery}
use rmw_dps.Discovery.NodeListener.Difference.{node_eq→eq, node_eq_refl}

module _ (u uuid : Text) (node : Node) (nodes : TextMap Node) where
  pub old_node-update :
      old_node u (update_nodes uuid true node nodes).0
      ≡ (if text_eq u uuid then node else old_node u nodes)
  unfolding old_node update_nodes
  old_node-update = ground (
    arith,
    lookup-put uuid u node nodes,
    text_eq→eq u uuid,
    node_eq→eq (old_node uuid nodes) node,
  )

  pub old_node-erase :
      old_node u (update_nodes uuid false node nodes).0
      ≡ (if text_eq u uuid then new_node else old_node u nodes)
  unfolding old_node update_nodes
  old_node-erase = ground (arith, lookup-erase uuid u nodes)

-- If onDiscovery does not trigger the graph guard condition, what is known of every node is as before.
update_nodes_unchanged :
    (uuid : Text) (payload : Bool) (node : Node) (nodes : TextMap Node) (u : Text)
    → (update_nodes uuid payload node nodes).1 ≡ false
    → lookup u (update_nodes uuid payload node nodes).0 ≡ lookup u nodes
unfolding update_nodes
update_nodes_unchanged uuid true node nodes u h = ground arith
update_nodes_unchanged uuid false node nodes u h =
    ground (arith, lookup-erase uuid u nodes, text_eq→eq u uuid)

-- If onDiscovery triggers the graph guard condition, what is known of the sender is not as before.
update_nodes_changed :
    (uuid : Text) (payload : Bool) (node : Node) (nodes : TextMap Node)
    → (update_nodes uuid payload node nodes).1 ≡ true
    → lookup uuid (update_nodes uuid payload node nodes).0 ≢ lookup uuid nodes
unfolding update_nodes
update_nodes_changed uuid true node nodes h e =
    ground (arith, lookup-put uuid uuid node nodes, text_eq_refl uuid, node_eq_refl node)
update_nodes_changed uuid false node nodes h e =
    ground (arith, lookup-erase uuid uuid nodes, text_eq_refl uuid)

discovered_lem :
    (uuid : Text) (payload : Bool) (node : Node) (s : NodeInfo)
    → ((discovered uuid payload node s).discovered_nodes
        ≡ (update_nodes uuid payload node s.discovered_nodes).0)
      × ((discovered uuid payload node s).graph_guard_condition ≡ (
          if (update_nodes uuid payload node s.discovered_nodes).1
          then record s.graph_guard_condition { has_triggered = true }
          else s.graph_guard_condition))
unfolding discovered trigger
discovered_lem uuid payload node s = (ground arith, ground arith)

-- What becomes of the graph guard condition, by whether what is known of the nodes changed.
abbrev pub TriggersOnChange : Text → NodeInfo → NodeInfo → Type 0
TriggersOnChange uuid s s' =
    (((u : Text) → lookup u s'.discovered_nodes ≡ lookup u s.discovered_nodes)
      × (s'.graph_guard_condition ≡ s.graph_guard_condition))
    ⊎ ((lookup uuid s'.discovered_nodes ≢ lookup uuid s.discovered_nodes)
        × (s'.graph_guard_condition ≡ record s.graph_guard_condition { has_triggered = true }))

discovered-TriggersOnChange :
    (uuid : Text) (payload : Bool) (node : Node) (s : NodeInfo)
    → TriggersOnChange uuid s (discovered uuid payload node s)
discovered-TriggersOnChange uuid payload node s =
    let (nodes, guard) = discovered_lem uuid payload node s in
    elim (Bool-cases (update_nodes uuid payload node s.discovered_nodes).1) [
      | inr e ↦ inl (
        (λ u. rw nodes (update_nodes_unchanged uuid payload node s.discovered_nodes u e)),
        guard ∙ rw e refl,
      )
      | inl e ↦ inr (
        rw nodes (update_nodes_changed uuid payload node s.discovered_nodes e),
        guard ∙ rw e refl,
      )
    ]

-- When onDiscovery returns, either what is known of every node is as before, and so is the graph guard
-- condition, or what is known of the sender is not as before, and the graph guard condition has its
-- flag set and is else as before.
pub on_discovery-TriggersOnChange :
    (uuid : Text) (topics : Option (List Text)) (s s' : NodeInfo)
    → on_discovery uuid topics s ≡ some s'
    → TriggersOnChange uuid s s'
unfolding on_discovery
on_discovery-TriggersOnChange uuid none s s' h =
    let same : discovered uuid false new_node s ≡ s' = cc h in
    subst (TriggersOnChange uuid s) same (discovered-TriggersOnChange uuid false new_node s)
on_discovery-TriggersOnChange uuid (some topics) s s' h =
    let (node, e, f) = >>=-eq-some (process_topics topics new_node) _ h in
    let same : discovered uuid true node s ≡ s' = cc f in
    subst (TriggersOnChange uuid s) same (discovered-TriggersOnChange uuid true node s)
