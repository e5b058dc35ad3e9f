-- ===== src/Availability.antt =====
-- rmw_service_server_is_available of rmw_dps_cpp/src/rmw_service_server_is_available.cpp, and the DPS
-- topic names of rmw_dps_cpp/src/names_common.cpp. `to_string` is std::to_string. `none` is a read out
-- of range.
pub mod Names
mod Tests
use rmw_dps.Prelude.{
  ℕ, Bool, true, false, not, ◌&&◌, List, [], ◌∷◌, ◌++◌, Option, none, some, if◌then◌else◌, ltb,
  drop,
}
use rmw_dps.Text.{Text, codes, find}
use rmw_dps.Rmw.{RmwRet, ok, error, Handle}
use rmw_dps.Discovery.NodeListener.{NodeInfo}
use rmw_dps.Graph.{count_services}

-- _get_dps_topic_name
unfoldable pub get_dps_topic_name : (ℕ → Text) → ℕ → Text → Text
get_dps_topic_name to_string domain_id ros_topic_name = to_string domain_id ++ ros_topic_name

-- The end of rmw_service_server_is_available: `topic` is that of the client's publication.
unfoldable pub is_available_on : NodeInfo → Text → Option (RmwRet × Option Bool)
is_available_on impl topic = elim (find (codes "/") topic) [
  | none ↦ none
  | some pos ↦ some (ok, some (ltb 0 (count_services (drop pos topic) impl.discovered_nodes)))
]

-- rmw_service_server_is_available: the return code, and `*is_available` if it is written. A client is
-- the topic of its publication, if it has data.
unfoldable pub rmw_service_server_is_available :
    Option (Handle NodeInfo) → Option (Option Text) → Bool → Option (RmwRet × Option Bool)
rmw_service_server_is_available none client is_available = some (error, none)
rmw_service_server_is_available (some node) none is_available = some (error, none)
rmw_service_server_is_available (some node) (some client) is_available =
    if node.ours && is_available
    then elim node.data_ [
      | none ↦ some (error, none)
      | some impl ↦ elim client [
        | none ↦ some (error, none)
        | some topic ↦ is_available_on impl topic
      ]
    ]
    else some (error, none)
