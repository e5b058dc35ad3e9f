-- ===== src/Discovery/Topics/Dispatch.antt =====
-- Which test of a round of onDiscovery's loop takes an entry: one step for each test that fails, and
-- one for each that holds.
use rmw_dps.Prelude.{◌≡◌, true, false, List, none, some}
use rmw_dps.Text.{Text, find}
use rmw_dps.Discovery.Names.{
  dps_namespace_prefix, dps_name_prefix, dps_subscriber_prefix, dps_publisher_prefix,
  dps_service_prefix, dps_client_prefix,
}
use rmw_dps.Discovery.Topics.{
  Topic, Node, process_topic_info, process_clients, process_services, process_publishers,
  process_subscribers, process_name, process_topic,
}

process_topic_info-miss :
    (s prefix : Text) (topics : List Topic)
    → find prefix s ≡ none
    → process_topic_info s prefix topics ≡ some (false, topics)
unfolding process_topic_info
process_topic_info-miss s prefix topics e = rw (e, process_topic_info)

module _ (s : Text) (node : Node) where
  pub namespace_missed :
      find dps_namespace_prefix s ≡ none → process_topic s node ≡ process_name s node
  unfolding process_topic
  namespace_missed e = rw (e, process_topic)

  pub name_missed : find dps_name_prefix s ≡ none → process_name s node ≡ process_subscribers s node
  unfolding process_name
  name_missed e = rw (e, process_name)

  pub subscriber_missed :
      find dps_subscriber_prefix s ≡ none → process_subscribers s node ≡ process_publishers s node
  unfolding process_subscribers
  subscriber_missed e =
      rw (process_topic_info-miss s dps_subscriber_prefix node.subscribers e, process_subscribers)

  pub publisher_missed :
      find dps_publisher_prefix s ≡ none → process_publishers s node ≡ process_services s node
  unfolding process_publishers
  publisher_missed e =
      rw (process_topic_info-miss s dps_publisher_prefix node.publishers e, process_publishers)

  pub service_missed :
      find dps_service_prefix s ≡ none → process_services s node ≡ process_clients s node
  unfolding process_services
  service_missed e =
      rw (process_topic_info-miss s dps_service_prefix node.services e, process_services)

  module _ (topics : List Topic) where
    pub subscriber_found :
        process_topic_info s dps_subscriber_prefix node.subscribers ≡ some (true, topics)
        → process_subscribers s node ≡ some (record node { subscribers = topics })
    unfolding process_subscribers
    subscriber_found e = rw (e, process_subscribers)

    pub publisher_found :
        process_topic_info s dps_publisher_prefix node.publishers ≡ some (true, topics)
        → process_publishers s node ≡ some (record node { publishers = topics })
    unfolding process_publishers
    publisher_found e = rw (e, process_publishers)

    pub service_found :
        process_topic_info s dps_service_prefix node.services ≡ some (true, topics)
        → process_services s node ≡ some (record node { services = topics })
    unfolding process_services
    service_found e = rw (e, process_services)

    pub client_found :
        process_topic_info s dps_client_prefix node.clients ≡ some (true, topics)
        → process_clients s node ≡ some (record node { clients = topics })
    unfolding process_clients
    client_found e = rw (e, process_clients)
