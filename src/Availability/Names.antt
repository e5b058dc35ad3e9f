-- ===== src/Availability/Names.antt =====
-- The service name that the topic of a client's publication holds.
use rmw_dps.Prelude.{
  List, ◌∷◌, Bool, false, ◌||◌, ℕ, ◌+◌, ◌≡◌, ap, ◌∙◌, true, [], ◌++◌, some, arith, ltb, length,
  drop-append,
}
use mathlib.Core.Option
use rmw_dps.Text.{Text, codes, find, text_eq}
use rmw_dps.Text.Find.{Lacks, find-skip, find-append}
use rmw_dps.Rmw.{ok}
use rmw_dps.Discovery.NodeListener.{NodeInfo}
use rmw_dps.Graph.{count_services, count_topics}
use rmw_dps.TextMap.{TextMap}
use rmw_dps.Discovery.Topics.{Topic, Node}
use rmw_dps.Availability.{get_dps_topic_name, is_available_on, rmw_service_server_is_available}

find-slash :
    (digits name : Text)
    → Lacks b'/' digits
    → find (codes "/") (digits ++ (codes "/" ++ name)) ≡ some (length digits + 0)
find-slash digits name h =
    find-skip b'/' [] digits (codes "/" ++ name) h
    ∙ ap (Option.map (λ (i : ℕ). length digits + i)) (find-append (codes "/") name)

-- Some service of the list has the name; some node has such a service.
unfoldable pub has_service : Text → List Topic → Bool
has_service name [] = false
has_service name (t ∷ topics) = text_eq t.topic name || has_service name topics

unfoldable pub some_node_serves : Text → TextMap Node → Bool
some_node_serves name [] = false
some_node_serves name ((uuid, node) ∷ nodes) =
    has_service name node.services || some_node_serves name nodes

count_topics-has_service :
    (name : Text) (topics : List Topic) → ltb 0 (count_topics name topics) ≡ has_service name topics
unfolding count_topics has_service
count_topics-has_service name [] = ground arith
count_topics-has_service name (t ∷ topics) = ground (arith, count_topics-has_service name topics)

count_services-some_node_serves :
    (name : Text) (nodes : TextMap Node)
    → ltb 0 (count_services name nodes) ≡ some_node_serves name nodes
unfolding count_services some_node_serves
count_services-some_node_serves name [] = ground arith
count_services-some_node_serves name ((u, n) ∷ nodes) =
    ground
      (arith, count_topics-has_service name n.services, count_services-some_node_serves name nodes)

-- For a client of a service whose name starts with `/`, rmw_service_server_is_available returns OK and
-- says that the service is available exactly if some discovered node has a service of that name,
-- whatever the domain is, if std::to_string writes it without a `/`.
pub rmw_service_server_is_available-get_dps_topic_name :
    (to_string : ℕ → Text) (domain_id : ℕ) (name : Text) (impl : NodeInfo)
    → Lacks b'/' (to_string domain_id)
    → rmw_service_server_is_available
        (some (record { ours = true; data_ = some impl }))
        (some (some (get_dps_topic_name to_string domain_id (codes "/" ++ name))))
        true
      ≡ some (ok, some (some_node_serves (codes "/" ++ name) impl.discovered_nodes))
unfolding rmw_service_server_is_available is_available_on get_dps_topic_name
rmw_service_server_is_available-get_dps_topic_name to_string domain_id name impl h = ground (
  arith,
  count_services-some_node_serves (codes "/" ++ name) impl.discovered_nodes,
  find-slash (to_string domain_id) name h,
  drop-append (to_string domain_id) (codes "/" ++ name),
)
