-- ===== src/Availability/Tests.antt =====
-- A client that looks for its server, at a concrete node.
use rmw_dps.Prelude.{ℕ, ◌≡◌, true, [], ◌∷◌, some, arith}
use rmw_dps.Text.{Text, codes, text_eq}
use rmw_dps.GuardCondition.{new_guard_condition}
use rmw_dps.Rmw.{ok}
use rmw_dps.Discovery.Topics.{new_node}
use rmw_dps.Discovery.NodeListener.{NodeInfo}
use rmw_dps.Availability.{get_dps_topic_name, rmw_service_server_is_available}
use rmw_dps.Availability.Names.{
  some_node_serves, has_service, rmw_service_server_is_available-get_dps_topic_name,
}

-- One node is known, and it has the service.
abbrev impl : NodeInfo
impl = record {
  discovered_nodes =
      (codes "u1", record new_node { services = record { topic = codes "/add"; types = [] } ∷ [] })
      ∷ [];
  publishers = [];
  subscribers = [];
  graph_guard_condition = new_guard_condition;
}

-- The domain is 7.
abbrev to_string : ℕ → Text
to_string n = codes "7"

rmw_service_server_is_available-get_dps_topic_name_example :
    rmw_service_server_is_available
      (some (record { ours = true; data_ = some impl }))
      (some (some (get_dps_topic_name to_string 7 (codes "/add"))))
      true
    ≡ some (ok, some true)
unfolding some_node_serves has_service text_eq
rmw_service_server_is_available-get_dps_topic_name_example =
    rmw_service_server_is_available-get_dps_topic_name to_string 7 (codes "add") impl (omega arith)
