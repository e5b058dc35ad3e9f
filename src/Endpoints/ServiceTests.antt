-- ===== src/Endpoints/ServiceTests.antt =====
-- Clients and services that are created and destroyed, and the theorems about them at concrete inputs.
use rmw_dps.Prelude.{◌≡◌, refl, Bool, true, false, List, [], ◌∷◌, Option, none, some}
use rmw_dps.Text.{Text, codes}
use rmw_dps.GuardCondition.{new_guard_condition}
use rmw_dps.Rmw.{is_ok}
use rmw_dps.Endpoints.Heap.{listener}
use rmw_dps.Endpoints.Payload.{NodeImpl, add_discovery_topic}
use rmw_dps.Endpoints.Payload.Entries.{occurrences}
use rmw_dps.Endpoints.Client
use rmw_dps.Endpoints.Client.{Client, create_client, destroy_client, fail_client, advertise_client}
use rmw_dps.Endpoints.Client.Lifecycle.{create_client_fails, destroy_client-create_client}
use rmw_dps.Endpoints.Service
use rmw_dps.Endpoints.Service.{
  Service, create_service, destroy_service, fail_service, advertise_service,
}
use rmw_dps.Endpoints.Service.Lifecycle.{create_service_fails, destroy_service-create_service}

abbrev fresh_node : NodeImpl
fresh_node = record {
  has_node = true;
  discovery_payload = codes "name=adder" ∷ [];
  announced = [];
  discovery = record {
    discovered_nodes = [];
    publishers = [];
    subscribers = [];
    graph_guard_condition = new_guard_condition;
  };
  heap = [];
}

abbrev accepts : List Text → Bool
accepts payload = true

abbrev client_works : Client.Outcomes
client_works = record {
  create_publication = true;
  set_publication_data = true;
  init_publication = true;
  client_allocate = true;
  allocate = true;
}

abbrev client_breaks : Client.Outcomes
client_breaks = record {
  create_publication = true;
  set_publication_data = false;
  init_publication = true;
  client_allocate = true;
  allocate = true;
}

create_client_fails_example :
    (create_client accepts client_breaks 1 (codes "/add") (codes "q") (codes "r") fresh_node).1.heap
    ≡ (listener, 1) ∷ []
unfolding create_client fail_client
create_client_fails_example =
    create_client_fails accepts client_breaks 1 (codes "/add") (codes "q") (codes "r") fresh_node
      refl

abbrev client_or : Option Client → Client
client_or none = record { owner = 0; data_ = none; name = none }
client_or (some made) = made

abbrev the_client : Client
the_client =
    client_or
      (create_client accepts client_works 1 (codes "/add") (codes "q") (codes "r") fresh_node).0

destroy_client-create_client_example :
    (left : NodeImpl) × (left
      ≡ destroy_client accepts the_client
          (create_client accepts client_works 1
            (codes "/add")
            (codes "q")
            (codes "r")
            fresh_node).1)
    × (left.heap ≡ [])
    × (occurrences (codes "name=adder") left.discovery_payload
        ≡ occurrences (codes "name=adder") fresh_node.discovery_payload)
unfolding create_client advertise_client add_discovery_topic is_ok
destroy_client-create_client_example =
    destroy_client-create_client accepts client_works 1 (codes "/add") (codes "q") (codes "r")
      (codes "name=adder") fresh_node the_client refl

abbrev service_works : Service.Outcomes
service_works = record {
  create_subscription = true;
  set_subscription_data = true;
  subscribe = true;
  service_allocate = true;
  allocate = true;
}

abbrev service_breaks : Service.Outcomes
service_breaks = record {
  create_subscription = false;
  set_subscription_data = true;
  subscribe = true;
  service_allocate = true;
  allocate = true;
}

create_service_fails_example :
    (create_service accepts service_breaks 1
      (codes "/add")
      (codes "q")
      (codes "r")
      fresh_node).1.heap
    ≡ (listener, 1) ∷ []
unfolding create_service fail_service
create_service_fails_example =
    create_service_fails accepts service_breaks 1 (codes "/add") (codes "q") (codes "r") fresh_node
      refl

abbrev service_or : Option Service → Service
service_or none = record { owner = 0; data_ = none; name = none }
service_or (some made) = made

abbrev the_service : Service
the_service =
    service_or
      (create_service accepts service_works 1 (codes "/add") (codes "q") (codes "r") fresh_node).0

destroy_service-create_service_example :
    (left : NodeImpl) × (left
      ≡ destroy_service accepts the_service
          (create_service accepts service_works 1
            (codes "/add")
            (codes "q")
            (codes "r")
            fresh_node).1)
    × (left.heap ≡ [])
    × (occurrences (codes "name=adder") left.discovery_payload
        ≡ occurrences (codes "name=adder") fresh_node.discovery_payload)
unfolding create_service advertise_service add_discovery_topic is_ok
destroy_service-create_service_example =
    destroy_service-create_service accepts service_works 1 (codes "/add") (codes "q") (codes "r")
      (codes "name=adder") fresh_node the_service refl
