-- ===== src/Discovery/Topics/Kinds.antt =====
-- One round of onDiscovery's loop on the entry of an endpoint, for each kind of endpoint.
use rmw_dps.Prelude.{◌≡◌, refl, ◌∙◌, [], ◌∷◌, ◌++◌, none, some, arith, true}
use rmw_dps.Text.{Text, codes, find}
use rmw_dps.Text.Find.{Lacks, clash_all}
use rmw_dps.Discovery.Names.{dps_namespace_prefix, dps_name_prefix}
use rmw_dps.Discovery.Topics.{Topic, Node, process_topic, process_subscribers}
use rmw_dps.Discovery.Topics.Split.{split_commas}
use rmw_dps.Discovery.Topics.Total.{Fits}
use rmw_dps.Discovery.Topics.Entry.{
  IsPlain, entry, namespace_absent, name_absent, kind_absent, past_kind, info-hit,
}
use rmw_dps.Discovery.Topics.Dispatch.{
  namespace_missed, name_missed, subscriber_missed, publisher_missed, service_missed,
  subscriber_found, publisher_found, service_found, client_found,
}

-- An entry of each kind, its types in one text.
module _ (t ty : Text) (plain : IsPlain t) (plain_types : IsPlain ty) (node : Node) where
  abbrev pub parsed : Topic
  parsed = record { topic = t; types = split_commas ty }

  -- The tests for a namespace and a name fail on every endpoint.
  past_names :
      (kind : Text)
      → clash_all dps_namespace_prefix (kind ++ codes "&topic=") ≡ true
      → clash_all dps_name_prefix (kind ++ codes "&topic=") ≡ true
      → process_topic (entry t ty kind) node ≡ process_subscribers (entry t ty kind) node
  past_names kind c d =
      namespace_missed _ node (
        past_kind t ty plain plain_types kind dps_namespace_prefix c
          (namespace_absent t ty plain plain_types))
      ∙ name_missed _ node (
          past_kind t ty plain plain_types kind dps_name_prefix d
            (name_absent t ty plain plain_types))

  pub process_topic-subscriber :
      Fits (entry t ty (codes "subscriber"))
      → process_topic (entry t ty (codes "subscriber")) node
        ≡ some (record node { subscribers = node.subscribers ++ parsed ∷ [] })
  unfolding clash_all
  process_topic-subscriber w =
      past_names (codes "subscriber") refl refl
      ∙ subscriber_found _ node _
          (info-hit t ty plain plain_types (codes "subscriber") node.subscribers (omega arith) w)

  -- The test for one kind of endpoint fails on an entry of another kind.
  missed :
      (kind other : Text)
      → Lacks b'&' other
      → clash_all (other ++ codes "&topic=") (kind ++ codes "&topic=") ≡ true
      → find (other ++ codes "&topic=") (entry t ty kind) ≡ none
  missed kind other h c =
      past_kind t ty plain plain_types kind (other ++ codes "&topic=") c
        (kind_absent t ty plain plain_types other h)

  pub process_topic-publisher :
      Fits (entry t ty (codes "publisher"))
      → process_topic (entry t ty (codes "publisher")) node
        ≡ some (record node { publishers = node.publishers ++ parsed ∷ [] })
  unfolding clash_all
  process_topic-publisher w =
      past_names (codes "publisher") refl refl
      ∙ subscriber_missed _ node
          (missed (codes "publisher") (codes "subscriber") (omega arith) refl)
      ∙ publisher_found _ node _
          (info-hit t ty plain plain_types (codes "publisher") node.publishers (omega arith) w)

  pub process_topic-service :
      Fits (entry t ty (codes "service"))
      → process_topic (entry t ty (codes "service")) node
        ≡ some (record node { services = node.services ++ parsed ∷ [] })
  unfolding clash_all
  process_topic-service w =
      past_names (codes "service") refl refl
      ∙ subscriber_missed _ node (missed (codes "service") (codes "subscriber") (omega arith) refl)
      ∙ publisher_missed _ node (missed (codes "service") (codes "publisher") (omega arith) refl)
      ∙ service_found _ node _
          (info-hit t ty plain plain_types (codes "service") node.services (omega arith) w)

  pub process_topic-client :
      Fits (entry t ty (codes "client"))
      → process_topic (entry t ty (codes "client")) node
        ≡ some (record node { clients = node.clients ++ parsed ∷ [] })
  unfolding clash_all
  process_topic-client w =
      past_names (codes "client") refl refl
      ∙ subscriber_missed _ node (missed (codes "client") (codes "subscriber") (omega arith) refl)
      ∙ publisher_missed _ node (missed (codes "client") (codes "publisher") (omega arith) refl)
      ∙ service_missed _ node (missed (codes "client") (codes "service") (omega arith) refl)
      ∙ client_found _ node _
          (info-hit t ty plain plain_types (codes "client") node.clients (omega arith) w)
