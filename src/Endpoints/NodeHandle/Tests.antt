-- ===== src/Endpoints/NodeHandle/Tests.antt =====
-- Nodes that are created and destroyed, and the theorems about them at concrete inputs.
use rmw_dps.Prelude.{Bool, ◌⊎◌, ◌≡◌, refl, true, false, some}
use rmw_dps.Text.{codes}
use rmw_dps.Rmw.{ok}
use rmw_dps.Discovery.Names.{node_topics}
use rmw_dps.Endpoints.NodeHandle.{
  NodeObjects, Outcomes, DestroyOutcomes, create_node, start_node, announce_node, destroy_node,
}
use rmw_dps.Endpoints.NodeHandle.Lifecycle.{none_left, CanDestroy, create_node_fails}
use rmw_dps.Endpoints.NodeHandle.Undo.{whole, left_by, create_node_succeeds}

abbrev works : Outcomes
works = record {
  node_allocate = true;
  zeroed = false;
  allocate_name = true;
  allocate_namespace = true;
  new_impl = true;
  create_guard_condition = true;
  create_node = true;
  start_node = true;
  create_discovery_service = true;
  set_data = true;
  publish = λ payload. true;
}

-- DPS does not accept the payload.
abbrev refused : Outcomes
refused = record works { publish = λ payload. false }

abbrev frees : DestroyOutcomes
frees = record {
  create_event = true;
  destroy_discovery_service = true;
  shutdown_node = false;
  destroy_dps_node = true;
  destroy_guard_condition = true;
}

CanDestroy-frees : CanDestroy frees
CanDestroy-frees = record {
  create_event = refl;
  destroy_discovery_service = refl;
  destroy_dps_node = refl;
  destroy_guard_condition = refl;
}

create_node_fails_example :
    (r : Bool × NodeObjects) × (create_node refused frees (some (codes "talker")) (some (codes "/"))
      ≡ some r)
    × (r.0 ≡ false)
    × ((r.0 ≡ true) ⊎ (none_left r.1 ≡ true))
create_node_fails_example =
    create_node_fails refused frees (codes "talker") (codes "/") CanDestroy-frees refl

-- DPS does not destroy the discovery service.
abbrev leaks : DestroyOutcomes
leaks = record frees { destroy_discovery_service = false }

create_node_succeeds_example :
    ((whole (node_topics (codes "talker") (codes "/"))).announced
      ≡ node_topics (codes "talker") (codes "/"))
    × (destroy_node leaks (whole (node_topics (codes "talker") (codes "/")))
        ≡ (ok, left_by leaks (node_topics (codes "talker") (codes "/"))))
unfolding create_node start_node announce_node
create_node_succeeds_example =
    create_node_succeeds works leaks (codes "talker") (codes "/")
      (whole (node_topics (codes "talker") (codes "/"))) refl
