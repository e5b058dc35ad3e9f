-- ===== src/Endpoints/NodeHandle/Lifecycle.antt =====
-- What create_node and destroy_node of rmw_dps_cpp/src/rmw_node.cpp leave.
use rmw_dps.Prelude.{
  ◌≡◌, Bool, true, false, not, ◌&&◌, ◌||◌, List, ◌++◌, some, arith, is_some, ◌⊎◌, inl, inr,
  Bool-cases, Option-cases,
}
use rmw_dps.Text.{Text}
use rmw_dps.Rmw.{ok}
use rmw_dps.Discovery.Names.{node_topics}
use rmw_dps.Endpoints.NodeHandle.{
  NodeObjects, no_objects, Outcomes, DestroyOutcomes, destroy_node, fail_node, announce_node,
  start_node, create_node, fail_early, destroy_impl, destroy_service, destroy_dps_node, free_handle,
}

-- No object of a node exists.
abbrev pub none_left : NodeObjects → Bool
none_left objects =
    not objects.handle
    && (not objects.name
        && (not objects.namespace_
            && (not objects.impl
                && (not objects.graph_guard_condition
                    && (not objects.listener && (not objects.node && not objects.discovery_svc))))))

-- The destruction of a node has what it needs.
pub record CanDestroy (outcomes : DestroyOutcomes) : Type 0 where
  pub create_event : outcomes.create_event ≡ true
  pub destroy_discovery_service : outcomes.destroy_discovery_service ≡ true
  pub destroy_dps_node : outcomes.destroy_dps_node ≡ true
  pub destroy_guard_condition : outcomes.destroy_guard_condition ≡ true

-- Objects are made in the order handle, names, data, the rest.
abbrev ordered : NodeObjects → Bool
ordered objects =
    (objects.handle || not (objects.name || (objects.namespace_ || objects.impl)))
    && (objects.impl
        || not (
            objects.graph_guard_condition
            || (objects.listener || (objects.node || objects.discovery_svc))))

destroy_node-none_left :
    (outcomes : DestroyOutcomes) (objects : NodeObjects)
    → CanDestroy outcomes
    → ordered objects ≡ true
    → (none_left (destroy_node outcomes objects).1 ≡ true)
      × ((destroy_node outcomes objects).0 ≡ ok)
unfolding destroy_node destroy_impl destroy_service destroy_dps_node free_handle
destroy_node-none_left outcomes objects c h = (
  ground (
    arith, c.create_event, c.destroy_discovery_service, c.destroy_dps_node,
    c.destroy_guard_condition,
  ),
  ground (
    arith, c.create_event, c.destroy_discovery_service, c.destroy_dps_node,
    c.destroy_guard_condition,
  ),
)

announce_node-fails :
    (outcomes : Outcomes) (destroy : DestroyOutcomes) (name namespace_ : Text)
    (objects : NodeObjects)
    → CanDestroy destroy
    → ordered objects ≡ true
    → (announce_node outcomes destroy name namespace_ objects).0 ≡ false
    → none_left (announce_node outcomes destroy name namespace_ objects).1 ≡ true
unfolding announce_node fail_node
announce_node-fails outcomes destroy name namespace_ objects c h e =
    let payload = objects.discovery_payload ++ node_topics name namespace_ in
    ground
      (arith, destroy_node-none_left destroy (record objects { discovery_payload = payload }) c)

start_node-fails :
    (outcomes : Outcomes) (destroy : DestroyOutcomes) (name namespace_ : Text)
    (objects : NodeObjects)
    → CanDestroy destroy
    → ordered objects ≡ true
    → objects.impl ≡ true
    → (start_node outcomes destroy name namespace_ objects).0 ≡ false
    → none_left (start_node outcomes destroy name namespace_ objects).1 ≡ true
unfolding start_node fail_node
start_node-fails outcomes destroy name namespace_ objects c h i e =
    let with_node = record objects { node = true } in
    let started = record with_node { running = true } in
    let with_service = record started { discovery_svc = true } in
    ground (
      arith,
      destroy_node-none_left destroy objects c,
      destroy_node-none_left destroy with_node c,
      destroy_node-none_left destroy started c,
      destroy_node-none_left destroy with_service c,
      announce_node-fails outcomes destroy name namespace_ with_service c,
    )

-- The failures that read a pointer that was never written.
abbrev pub reads_unwritten : Outcomes → Bool
reads_unwritten outcomes =
    outcomes.node_allocate
    && (not outcomes.zeroed
        && not (outcomes.allocate_name && (outcomes.allocate_namespace && outcomes.new_impl)))

-- With both names, create_node reads a pointer that was never written exactly if rmw_node_allocate returned memory that
-- is not zeroed and one of the next three allocations fails.
create_node_reads :
    (outcomes : Outcomes) (destroy : DestroyOutcomes) (name namespace_ : Text)
    → is_some (create_node outcomes destroy (some name) (some namespace_))
      ≡ not (reads_unwritten outcomes)
unfolding create_node fail_early
create_node_reads outcomes destroy name namespace_ = ground arith

-- Nothing is left by a failure that reads only what was written.
create_node_left :
    (outcomes : Outcomes) (destroy : DestroyOutcomes) (name namespace_ : Text)
    (r : Bool × NodeObjects)
    → CanDestroy destroy
    → create_node outcomes destroy (some name) (some namespace_) ≡ some r
    → r.0 ≡ false
    → none_left r.1 ≡ true
unfolding create_node fail_early fail_node
create_node_left outcomes destroy name namespace_ r c h e =
    let with_handle : NodeObjects = record no_objects { handle = true } in
    let with_name : NodeObjects = record with_handle { name = true } in
    let with_namespace : NodeObjects = record with_name { namespace_ = true } in
    let with_impl : NodeObjects = record with_namespace { impl = true } in
    ground (
      arith,
      destroy_node-none_left destroy no_objects c,
      destroy_node-none_left destroy with_handle c,
      destroy_node-none_left destroy with_name c,
      destroy_node-none_left destroy with_namespace c,
      destroy_node-none_left destroy with_impl c,
      start_node-fails outcomes destroy name namespace_
          (record with_impl { graph_guard_condition = true; listener = true }) c,
    )

-- Every call of create_node succeeds.
abbrev pub all_succeed : Outcomes → List Text → Bool
all_succeed outcomes payload =
    outcomes.node_allocate
    && (outcomes.allocate_name
        && (outcomes.allocate_namespace
            && (outcomes.new_impl
                && (outcomes.create_guard_condition
                    && (outcomes.create_node
                        && (outcomes.start_node
                            && (outcomes.create_discovery_service
                                && (outcomes.set_data && outcomes.publish payload))))))))

create_node_returns :
    (outcomes : Outcomes) (destroy : DestroyOutcomes) (name namespace_ : Text)
    (r : Bool × NodeObjects)
    → create_node outcomes destroy (some name) (some namespace_) ≡ some r
    → r.0 ≡ all_succeed outcomes (node_topics name namespace_)
unfolding create_node fail_early start_node announce_node fail_node
create_node_returns outcomes destroy name namespace_ r e = ground arith

-- Let the destruction get its event, and let DPS and rmw destroy what they are asked to. If the memory
-- of the handle is zeroed, or no allocation before the CustomNodeInfo fails, create_node, with both
-- names, does not read a pointer that was never written, and returns a node exactly if all its calls
-- succeed; and if it fails, wherever it fails, no object of the node is left.
pub create_node_fails :
    (outcomes : Outcomes) (destroy : DestroyOutcomes) (name namespace_ : Text)
    → CanDestroy destroy
    → reads_unwritten outcomes ≡ false
    → (r : Bool × NodeObjects) × (create_node outcomes destroy (some name) (some namespace_)
        ≡ some r)
      × (r.0 ≡ all_succeed outcomes (node_topics name namespace_))
      × ((r.0 ≡ true) ⊎ (none_left r.1 ≡ true))
create_node_fails outcomes destroy name namespace_ c h =
    let reads = create_node_reads outcomes destroy name namespace_ in
    elim (Option-cases (create_node outcomes destroy (some name) (some namespace_))) [
      | inl e ↦ absurd (ground (arith, reads, e, h))
      | inr (r, e) ↦ elim (Bool-cases r.0) [
        | inl made ↦ (r, e, create_node_returns outcomes destroy name namespace_ r e, inl made)
        | inr failed ↦ (
          r,
          e,
          create_node_returns outcomes destroy name namespace_ r e,
          inr (create_node_left outcomes destroy name namespace_ r c e failed),
        )
      ]
    ]
