-- ===== src/Discovery/Topics/RoundTrip.antt =====
-- onDiscovery on what create_node, rmw_create_publisher, rmw_create_subscription, rmw_create_client
-- and rmw_create_service put into a payload.
use rmw_dps.Prelude.{◌≡◌, refl, ap, ◌∙◌, List, [], ◌∷◌, ◌++◌, some, arith, All, All-append, map}
use mathlib.Core.List.{foldl}
use rmw_dps.Text.{Text, codes, substr_from}
use rmw_dps.Text.Find.{Lacks, find-append, find-absent, find-past, clash_all}
use rmw_dps.Discovery.Names.{
  dps_namespace_prefix, dps_name_prefix, publisher_discovery_name, subscription_discovery_name,
  client_discovery_name, service_discovery_name, node_topics,
}
use rmw_dps.Discovery.Topics.{Node, new_node, process_topic, process_topics, process_name}
use rmw_dps.Discovery.Topics.Split.{split_commas, split_commas-one, split_commas-append}
use rmw_dps.Discovery.Topics.Total.{Fits}
use rmw_dps.Discovery.Topics.Entry.{IsPlain}
use rmw_dps.Discovery.Topics.Dispatch.{namespace_missed}
use rmw_dps.Discovery.Topics.Kinds.{
  process_topic-subscriber, process_topic-publisher, process_topic-service, process_topic-client,
}

-- What a node makes known: its endpoints, in the order in which they were created.
pub data Endpoint : Type 0 where
  publisher : Text → Text → Endpoint
  subscription : Text → Text → Endpoint
  client : Text → Text → Text → Endpoint
  service : Text → Text → Text → Endpoint

abbrev pub discovery_name : Endpoint → Text
discovery_name (publisher t ty) = publisher_discovery_name t ty
discovery_name (subscription t ty) = subscription_discovery_name t ty
discovery_name (client s request response) = client_discovery_name s request response
discovery_name (service s request response) = service_discovery_name s request response

-- A topic, a service or a type name as ROS has them: no `&`, `=` or `,`.
pub record IsRosName (s : Text) : Type 0 where
  pub plain : IsPlain s
  pub no_comma : Lacks b',' s

abbrev names : Endpoint → List Text
names (publisher t ty) = t ∷ ty ∷ []
names (subscription t ty) = t ∷ ty ∷ []
names (client s request response) = s ∷ request ∷ response ∷ []
names (service s request response) = s ∷ request ∷ response ∷ []

pub record IsValid (e : Endpoint) : Type 0 where
  pub ros_names : All IsRosName (names e)
  pub fits : Fits (discovery_name e)

-- The node with one endpoint more.
abbrev pub add_endpoint : Node → Endpoint → Node
add_endpoint node (publisher t ty) = record node {
  publishers = node.publishers ++ record { topic = t; types = ty ∷ [] } ∷ [];
}
add_endpoint node (subscription t ty) = record node {
  subscribers = node.subscribers ++ record { topic = t; types = ty ∷ [] } ∷ [];
}
add_endpoint node (client s request response) = record node {
  clients = node.clients ++ record { topic = s; types = request ∷ response ∷ [] } ∷ [];
}
add_endpoint node (service s request response) = record node {
  services = node.services ++ record { topic = s; types = request ∷ response ∷ [] } ∷ [];
}

comma-IsPlain : (a b : Text) → IsRosName a → IsRosName b → IsPlain (a ++ (codes "," ++ b))
comma-IsPlain a b h k = record {
  no_ampersand = All-append _ a _ h.plain.no_ampersand (omega arith, k.plain.no_ampersand);
  no_equals = All-append _ a _ h.plain.no_equals (omega arith, k.plain.no_equals);
}

split_two :
    (a b : Text) → IsRosName a → IsRosName b → split_commas (a ++ (codes "," ++ b)) ≡ a ∷ b ∷ []
split_two a b h k = split_commas-append a b h.no_comma ∙ ap (◌∷◌ a) (split_commas-one b k.no_comma)

-- One entry adds its endpoint, of its kind and with its types, to the node that is read, and nothing
-- else.
process_topic-endpoint :
    (e : Endpoint) (node : Node)
    → IsValid e
    → process_topic (discovery_name e) node ≡ some (add_endpoint node e)
unfolding publisher_discovery_name subscription_discovery_name client_discovery_name
    service_discovery_name
process_topic-endpoint (publisher t ty) node v =
    rw (← split_commas-one ty v.ros_names.1.0.no_comma)
      (process_topic-publisher t ty v.ros_names.0.plain v.ros_names.1.0.plain node v.fits)
process_topic-endpoint (subscription t ty) node v =
    rw (← split_commas-one ty v.ros_names.1.0.no_comma)
      (process_topic-subscriber t ty v.ros_names.0.plain v.ros_names.1.0.plain node v.fits)
process_topic-endpoint (client s q r) node v =
    let types = comma-IsPlain q r v.ros_names.1.0 v.ros_names.1.1.0 in
    rw (← split_two q r v.ros_names.1.0 v.ros_names.1.1.0)
      (process_topic-client s (q ++ (codes "," ++ r)) v.ros_names.0.plain types node v.fits)
process_topic-endpoint (service s q r) node v =
    let types = comma-IsPlain q r v.ros_names.1.0 v.ros_names.1.1.0 in
    rw (← split_two q r v.ros_names.1.0 v.ros_names.1.1.0)
      (process_topic-service s (q ++ (codes "," ++ r)) v.ros_names.0.plain types node v.fits)

process_topic-namespace :
    (namespace_ : Text) (node : Node)
    → process_topic (dps_namespace_prefix ++ namespace_) node
      ≡ some (record node { namespace_ = namespace_ })
unfolding process_topic substr_from
process_topic-namespace namespace_ node =
    ground (arith, find-append dps_namespace_prefix namespace_)

process_topic-name :
    (name : Text) (node : Node)
    → Lacks b'=' name
    → process_topic (dps_name_prefix ++ name) node ≡ some (record node { name = name })
unfolding process_name substr_from clash_all
process_topic-name name node h =
    namespace_missed _ node (
      find-past dps_namespace_prefix dps_name_prefix name refl
        (find-absent (codes "namespace") [] name b'=' h))
    ∙ ground (arith, find-append dps_name_prefix name)

process_topics-endpoints :
    (es : List Endpoint) (node : Node)
    → All IsValid es
    → process_topics (map discovery_name es) node ≡ some (foldl add_endpoint node es)
unfolding process_topics
process_topics-endpoints [] node h = refl
process_topics-endpoints (e ∷ es) node h =
    rw (process_topic-endpoint e node h.0) (process_topics-endpoints es (add_endpoint node e) h.1)

-- The payload of a node: what create_node puts into it, and then one entry for each endpoint.
abbrev pub payload : Text → Text → List Endpoint → List Text
payload name namespace_ es = node_topics name namespace_ ++ map discovery_name es

-- A node that reads the payload of another one, whose name has no `=` and whose endpoints have ROS
-- names and entries that fit a 64-bit size, has exactly the other's name, namespace and endpoints,
-- each endpoint under its own kind, in the order of the payload, with the types that it was created
-- with.
pub process_topics-payload :
    (name namespace_ : Text) (es : List Endpoint)
    → Lacks b'=' name
    → All IsValid es
    → process_topics (payload name namespace_ es) new_node
      ≡ some (foldl add_endpoint (record new_node { name = name; namespace_ = namespace_ }) es)
unfolding process_topics node_topics
process_topics-payload name namespace_ es h v =
    rw (process_topic-namespace namespace_ new_node, process_topic-name name _ h)
      (process_topics-endpoints es _ v)
