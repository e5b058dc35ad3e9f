-- ===== src/Endpoints/NodeHandle/Undo.antt =====
-- destroy_node after create_node, of rmw_dps_cpp/src/rmw_node.cpp.
use rmw_dps.Prelude.{◌≡◌, refl, true, not, ◌&&◌, List, some, arith, if◌then◌else◌}
use rmw_dps.Text.{Text}
use rmw_dps.Rmw.{ok, error}
use rmw_dps.Discovery.Names.{node_topics}
use rmw_dps.Endpoints.NodeHandle.{
  NodeObjects, no_objects, Outcomes, DestroyOutcomes, destroy_node, fail_node, announce_node,
  start_node, create_node, fail_early, destroy_impl, destroy_service, destroy_dps_node, free_handle,
}

-- A node with all its objects.
abbrev pub whole : List Text → NodeObjects
whole payload = record {
  handle = true;
  name = true;
  namespace_ = true;
  impl = true;
  graph_guard_condition = true;
  listener = true;
  node = true;
  running = true;
  discovery_svc = true;
  discovery_payload = payload;
  announced = payload;
}

created_node :
    (outcomes : Outcomes) (destroy : DestroyOutcomes) (name namespace_ : Text)
    (objects : NodeObjects)
    → create_node outcomes destroy (some name) (some namespace_) ≡ some (true, objects)
    → objects ≡ whole (node_topics name namespace_)
unfolding create_node fail_early start_node announce_node fail_node
created_node outcomes destroy name namespace_ objects e = ground arith

-- What is left of a node after destroy_node: what DPS and rmw did not destroy.
abbrev pub left_by : DestroyOutcomes → List Text → NodeObjects
left_by destroy payload = record no_objects {
  graph_guard_condition = not destroy.destroy_guard_condition;
  node = not destroy.destroy_dps_node;
  running = not destroy.destroy_dps_node && not destroy.shutdown_node;
  discovery_svc = not destroy.destroy_discovery_service;
  discovery_payload = payload;
  announced = payload;
}

-- If create_node returns a node, what DPS has of it is exactly its namespace and its name. destroy_node
-- of it returns an error and changes nothing if there is no event. If there is one, it returns OK
-- whatever fails, and of the objects exactly those are left that DPS or rmw did not destroy: the
-- discovery service, the DPS_Node, which still runs if it was not shut down either, and the guard
-- condition.
pub create_node_succeeds :
    (outcomes : Outcomes) (destroy : DestroyOutcomes) (name namespace_ : Text)
    (objects : NodeObjects)
    → create_node outcomes destroy (some name) (some namespace_) ≡ some (true, objects)
    → (objects.announced ≡ node_topics name namespace_)
      × (destroy_node destroy objects ≡ (
          if destroy.create_event
          then (ok, left_by destroy (node_topics name namespace_))
          else (error, objects)))
unfolding destroy_node destroy_impl destroy_service destroy_dps_node free_handle
create_node_succeeds outcomes destroy name namespace_ objects e =
    rw (created_node outcomes destroy name namespace_ objects e) (refl, ground arith)
