-- ===== src/Endpoints/Tests.antt =====
-- Publishers and subscriptions that are created and destroyed, and the theorems about them at
-- concrete inputs.
use rmw_dps.Prelude.{◌≡◌, refl, Bool, true, false, List, [], ◌∷◌, Option, none, some}
use rmw_dps.Text.{Text, codes}
use rmw_dps.TextMap.{lookup}
use rmw_dps.GuardCondition.{new_guard_condition}
use rmw_dps.Discovery.NodeListener.{infos_at}
use rmw_dps.Endpoints.Payload.{NodeImpl, add_discovery_topic}
use rmw_dps.Endpoints.Payload.Entries.{occurrences}
use rmw_dps.Endpoints.Publisher.{
  Publisher, fail_publisher, advertise_publisher, create_publisher, destroy_publisher,
}
use rmw_dps.Endpoints.Publisher.Lifecycle.{all_succeed, create_publisher_fails}
use rmw_dps.Endpoints.Publisher.Undo.{destroy_publisher-create_publisher}
use rmw_dps.Endpoints.Subscription.{
  Subscription, create_subscription, destroy_subscription, fail_subscription,
  advertise_subscription, register_subscription,
}
use rmw_dps.Endpoints.Subscription
use rmw_dps.Endpoints.Heap.{listener}
use rmw_dps.Endpoints.Subscription.Lifecycle.{create_subscription_fails}
use rmw_dps.Endpoints.Subscription.Undo.{destroy_subscription-create_subscription}
use rmw_dps.Rmw.{is_ok}

-- A node that has just been created.
abbrev fresh_node : NodeImpl
fresh_node = record {
  has_node = true;
  discovery_payload = codes "namespace=/" ∷ codes "name=talker" ∷ [];
  announced = [];
  discovery = record {
    discovered_nodes = [];
    publishers = [];
    subscribers = [];
    graph_guard_condition = new_guard_condition;
  };
  heap = [];
}

abbrev accepts : List Text → Bool
accepts payload = true

abbrev refuses : List Text → Bool
refuses payload = false

abbrev chatter : Text
chatter = codes "/chatter"

create_publisher_fails_example :
    ((create_publisher refuses all_succeed 1 chatter (codes "a") fresh_node).1.heap ≡ [])
    × ((create_publisher refuses all_succeed 1 chatter (codes "a") fresh_node).1.discovery
        ≡ fresh_node.discovery)
unfolding create_publisher advertise_publisher add_discovery_topic fail_publisher is_ok
create_publisher_fails_example =
    create_publisher_fails refuses all_succeed 1 chatter (codes "a") fresh_node refl

abbrev publisher_or : Option Publisher → Publisher
publisher_or none = record { owner = 0; data_ = none; name = none }
publisher_or (some p) = p

abbrev talker : Publisher
talker = publisher_or (create_publisher accepts all_succeed 1 chatter (codes "a") fresh_node).0

destroy_publisher-create_publisher_example :
    (left : NodeImpl) × (left
      ≡ destroy_publisher accepts talker
          (create_publisher accepts all_succeed 1 chatter (codes "a") fresh_node).1)
    × (left.heap ≡ [])
    × (occurrences (codes "name=talker") left.discovery_payload
        ≡ occurrences (codes "name=talker") fresh_node.discovery_payload)
    × (infos_at chatter left.discovery.publishers ≡ infos_at chatter [])
unfolding create_publisher advertise_publisher add_discovery_topic is_ok infos_at lookup
destroy_publisher-create_publisher_example =
    destroy_publisher-create_publisher accepts all_succeed 1 chatter (codes "a")
      (codes "name=talker") chatter fresh_node talker refl tt

-- DPS does not take the listener as the subscription's data.
abbrev data_refused : Subscription.Outcomes
data_refused = record {
  create_subscription = true;
  set_subscription_data = false;
  subscribe = true;
  subscription_allocate = true;
  allocate = true;
}

create_subscription_fails_example :
    ((create_subscription accepts data_refused 1 chatter (codes "a") fresh_node).1.heap
      ≡ (listener, 1) ∷ [])
    × ((create_subscription accepts data_refused 1 chatter (codes "a") fresh_node).1.discovery
        ≡ fresh_node.discovery)
unfolding create_subscription fail_subscription
create_subscription_fails_example =
    create_subscription_fails accepts data_refused 1 chatter (codes "a") fresh_node refl

abbrev works : Subscription.Outcomes
works = record data_refused { set_subscription_data = true }

abbrev subscription_or : Option Subscription → Subscription
subscription_or none = record { owner = 0; data_ = none; name = none }
subscription_or (some s) = s

abbrev hearer : Subscription
hearer = subscription_or (create_subscription accepts works 1 chatter (codes "a") fresh_node).0

destroy_subscription-create_subscription_example :
    (left : NodeImpl) × (left
      ≡ destroy_subscription accepts hearer
          (create_subscription accepts works 1 chatter (codes "a") fresh_node).1)
    × (left.heap ≡ [])
    × (occurrences (codes "name=talker") left.discovery_payload
        ≡ occurrences (codes "name=talker") fresh_node.discovery_payload)
    × (infos_at chatter left.discovery.subscribers ≡ infos_at chatter [])
unfolding create_subscription advertise_subscription add_discovery_topic is_ok infos_at lookup
destroy_subscription-create_subscription_example =
    destroy_subscription-create_subscription accepts works 1 chatter (codes "a")
      (codes "name=talker") chatter fresh_node hearer refl tt
