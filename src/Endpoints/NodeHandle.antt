-- ===== src/Endpoints/NodeHandle.antt =====
-- create_node, destroy_node, rmw_create_node and rmw_destroy_node of rmw_dps_cpp/src/rmw_node.cpp, as to
-- what they allocate and what they make known. The outcomes of the calls of DPS, of rmw and of the
-- allocators are parameters, and so is whether rmw_node_allocate returns zeroed memory. `none` is a read
-- of a pointer that was never written. Debug messages are left out.
pub mod Lifecycle
pub mod Undo
mod Tests
use rmw_dps.Prelude.{
  Bool, true, false, not, ◌&&◌, List, [], ◌∷◌, ◌++◌, Option, none, some, if◌then◌else◌,
}
use rmw_dps.Text.{Text}
use rmw_dps.Rmw.{RmwRet, ok, error}
use rmw_dps.Discovery.Names.{node_topics}

-- Which objects of a node exist, whether its DPS_Node runs, and its payload, as it is and as DPS has
-- it.
pub record NodeObjects : Type 0 where
  pub handle : Bool
  pub name : Bool
  pub namespace_ : Bool
  pub impl : Bool
  pub graph_guard_condition : Bool
  pub listener : Bool
  pub node : Bool
  pub running : Bool
  pub discovery_svc : Bool
  pub discovery_payload : List Text
  pub announced : List Text

abbrev pub no_objects : NodeObjects
no_objects = record {
  handle = false;
  name = false;
  namespace_ = false;
  impl = false;
  graph_guard_condition = false;
  listener = false;
  node = false;
  running = false;
  discovery_svc = false;
  discovery_payload = [];
  announced = [];
}

-- What the calls of create_node return, in their order; `zeroed` is whether the pointers of a fresh
-- rmw_node_t are null.
pub record Outcomes : Type 0 where
  pub node_allocate : Bool
  pub zeroed : Bool
  pub allocate_name : Bool
  pub allocate_namespace : Bool
  pub new_impl : Bool
  pub create_guard_condition : Bool
  pub create_node : Bool
  pub start_node : Bool
  pub create_discovery_service : Bool
  pub set_data : Bool
  pub publish : List Text → Bool

-- What the calls of destroy_node return: whether DPS_CreateEvent returns an event, and whether the
-- others return OK.
pub record DestroyOutcomes : Type 0 where
  pub create_event : Bool
  pub destroy_discovery_service : Bool
  pub shutdown_node : Bool
  pub destroy_dps_node : Bool
  pub destroy_guard_condition : Bool

-- `if (impl->discovery_svc_)`: the service is destroyed if DPS accepts that, and is waited for.
unfoldable pub destroy_service : DestroyOutcomes → NodeObjects → NodeObjects
destroy_service outcomes objects =
    if objects.discovery_svc
    then if outcomes.destroy_discovery_service
      then record objects { discovery_svc = false }
      else objects
    else objects

-- `if (impl->node_)`: the node is shut down and then destroyed, each if DPS accepts it.
unfoldable pub destroy_dps_node : DestroyOutcomes → NodeObjects → NodeObjects
destroy_dps_node outcomes objects =
    if objects.node
    then (let stopped =
          if outcomes.shutdown_node then record objects { running = false } else objects in
        if outcomes.destroy_dps_node
        then record stopped { node = false; running = false }
        else stopped)
    else objects

-- The part of destroy_node under `if (impl)`, after the event is there. CustomNodeInfo is deleted
-- whatever was destroyed before.
unfoldable pub destroy_impl : DestroyOutcomes → NodeObjects → NodeObjects
unfolding destroy_service destroy_dps_node
destroy_impl outcomes objects =
    let left = destroy_dps_node outcomes (destroy_service outcomes objects) in
    record left {
      impl = false;
      listener = false;
      graph_guard_condition = left.graph_guard_condition && not outcomes.destroy_guard_condition;
    }

-- The end of destroy_node: both names and the handle are freed.
unfoldable pub free_handle : NodeObjects → NodeObjects
free_handle objects = record objects { name = false; namespace_ = false; handle = false }

-- destroy_node
unfoldable pub destroy_node : DestroyOutcomes → NodeObjects → RmwRet × NodeObjects
unfolding destroy_impl free_handle
destroy_node outcomes objects =
    if not objects.handle
    then (ok, objects)
    else if not objects.impl
    then (ok, free_handle objects)
    else if not outcomes.create_event
    then (error, objects)
    else (ok, free_handle (destroy_impl outcomes objects))

-- The code at `fail` of create_node.
unfoldable pub fail_node : DestroyOutcomes → NodeObjects → Bool × NodeObjects
unfolding destroy_node
fail_node outcomes objects = (false, (destroy_node outcomes objects).1)

-- _add_discovery_topics on the payload of the new node, and the end of create_node.
unfoldable pub announce_node :
    Outcomes → DestroyOutcomes → Text → Text → NodeObjects → Bool × NodeObjects
announce_node outcomes destroy name namespace_ objects =
    let payload = objects.discovery_payload ++ node_topics name namespace_ in
    if outcomes.publish payload
    then (true, record objects { discovery_payload = payload; announced = payload })
    else fail_node destroy (record objects { discovery_payload = payload })

-- create_node from DPS_CreateNode on.
unfoldable pub start_node :
    Outcomes → DestroyOutcomes → Text → Text → NodeObjects → Bool × NodeObjects
start_node outcomes destroy name namespace_ objects =
    let with_node = record objects { node = true } in
    let started = record with_node { running = true } in
    let with_service = record started { discovery_svc = true } in
    if not outcomes.create_node
    then fail_node destroy objects
    else if not outcomes.start_node
    then fail_node destroy with_node
    else if not outcomes.create_discovery_service
    then fail_node destroy started
    else if not outcomes.set_data
    then fail_node destroy with_service
    else announce_node outcomes destroy name namespace_ with_service

-- `fail` before `data` is written: destroy_node reads it.
unfoldable pub fail_early : Bool → DestroyOutcomes → NodeObjects → Option (Bool × NodeObjects)
fail_early zeroed outcomes objects = if zeroed then some (fail_node outcomes objects) else none

-- create_node: whether it returns a node, and the objects that exist then.
unfoldable pub create_node :
    Outcomes → DestroyOutcomes → Option Text → Option Text → Option (Bool × NodeObjects)
create_node outcomes destroy none namespace_ = some (false, no_objects)
create_node outcomes destroy (some name) none = some (false, no_objects)
create_node outcomes destroy (some name) (some namespace_) =
    let with_handle = record no_objects { handle = true } in
    let with_name = record with_handle { name = true } in
    let with_namespace = record with_name { namespace_ = true } in
    let with_impl = record with_namespace { impl = true } in
    if not outcomes.node_allocate
    then some (fail_node destroy no_objects)
    else if not outcomes.allocate_name
    then fail_early outcomes.zeroed destroy with_handle
    else if not outcomes.allocate_namespace
    then fail_early outcomes.zeroed destroy with_name
    else if not outcomes.new_impl
    then fail_early outcomes.zeroed destroy with_namespace
    else if not outcomes.create_guard_condition
    then some (fail_node destroy with_impl)
    else some (
        start_node outcomes destroy name namespace_
          (record with_impl { graph_guard_condition = true; listener = true }))

-- rmw_create_node: `context` is whether there is a context, and of this implementation.
unfoldable pub rmw_create_node :
    Outcomes
    → DestroyOutcomes
    → Bool
    → Option Text
    → Option Text
    → Bool
    → Option (Bool × NodeObjects)
rmw_create_node outcomes destroy context none namespace_ security_options = some (false, no_objects)
rmw_create_node outcomes destroy context (some name) namespace_ security_options =
    if context && security_options
    then create_node outcomes destroy (some name) namespace_
    else some (false, no_objects)

-- rmw_destroy_node; `ours` is whether the node is of this implementation.
unfoldable pub rmw_destroy_node :
    DestroyOutcomes → Bool → Option NodeObjects → RmwRet × Option NodeObjects
rmw_destroy_node outcomes ours none = (error, none)
rmw_destroy_node outcomes ours (some objects) =
    let (ret, objects') = destroy_node outcomes objects in
    if ours then (ret, some objects') else (error, some objects)
