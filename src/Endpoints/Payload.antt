-- ===== src/Endpoints/Payload.antt =====
-- The discovery payload of a node: _publish_discovery_payload, _add_discovery_topics,
-- _add_discovery_topic and _remove_discovery_topic of rmw_dps_cpp/src/rmw_node.cpp. `publish` says for
-- each payload whether DPS_DiscoveryPublish accepts it, encoded.
pub mod Entries
pub mod Encoded
use rmw_dps.Prelude.{ℕ, Bool, true, false, List, [], ◌∷◌, ◌++◌, if◌then◌else◌}
use rmw_dps.Text.{Text, text_eq}
use rmw_dps.Rmw.{RmwRet, ok, error}
use rmw_dps.Discovery.NodeListener.{NodeInfo}
use rmw_dps.Endpoints.Heap.{Heap}

-- CustomNodeInfo, with the payload that DPS has of the node and the objects that are allocated.
pub record NodeImpl : Type 0 where
  pub has_node : Bool
  pub discovery_payload : List Text
  pub announced : List Text
  pub discovery : NodeInfo
  pub heap : Heap

-- std::find_if with `str == topic`, and the erase of what it finds.
unfoldable pub holds : Text → List Text → Bool
holds topic [] = false
holds topic (s ∷ payload) = let rest = holds topic payload in if text_eq s topic then true else rest

unfoldable pub erase_first : Text → List Text → List Text
erase_first topic [] = []
erase_first topic (s ∷ payload) =
    let rest = erase_first topic payload in if text_eq s topic then payload else s ∷ rest

module _ (publish : List Text → Bool) where
  -- _publish_discovery_payload
  unfoldable pub publish_discovery_payload : NodeImpl → RmwRet × NodeImpl
  publish_discovery_payload impl =
      if publish impl.discovery_payload
      then (ok, record impl { announced = impl.discovery_payload })
      else (error, impl)

  -- _add_discovery_topics
  unfoldable pub add_discovery_topics : List Text → NodeImpl → RmwRet × NodeImpl
  unfolding publish_discovery_payload
  add_discovery_topics topics impl =
      publish_discovery_payload
        (record impl { discovery_payload = impl.discovery_payload ++ topics })

  -- _add_discovery_topic
  unfoldable pub add_discovery_topic : Text → NodeImpl → RmwRet × NodeImpl
  unfolding publish_discovery_payload
  add_discovery_topic topic impl =
      publish_discovery_payload
        (record impl { discovery_payload = impl.discovery_payload ++ topic ∷ [] })

  -- _remove_discovery_topic
  unfoldable pub remove_discovery_topic : Text → NodeImpl → RmwRet × NodeImpl
  unfolding publish_discovery_payload
  remove_discovery_topic topic impl =
      if holds topic impl.discovery_payload
      then publish_discovery_payload
          (record impl { discovery_payload = erase_first topic impl.discovery_payload })
      else (ok, impl)
