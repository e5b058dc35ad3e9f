-- ===== src/Endpoints/Service/Lifecycle.antt =====
-- What a creation of a service in rmw_dps_cpp/src/rmw_service.cpp leaves, if it fails, and if the
-- service is destroyed.
use rmw_dps.Prelude.{
  ℕ, ◌-◌, ◌≡◌, refl, ◌∙◌, Bool, true, false, not, ◌||◌, List, ◌∷◌, none, some, arith, if◌then◌else◌,
}
use rmw_dps.Text.{Text, text_eq}
use rmw_dps.Discovery.Names.{service_discovery_name}
use rmw_dps.Endpoints.Heap.{
  release, Heap, info, request_type_support, response_type_support, subscription, listener, handle,
  topic_name,
}
use rmw_dps.Endpoints.Payload.{NodeImpl, add_discovery_topic}
use rmw_dps.Endpoints.Payload.Entries.{
  occurrences, occurrences-add_discovery_topic, occurrences-remove_discovery_topic,
}
use rmw_dps.Endpoints.Publisher.Lifecycle.{add_discovery_topic_lem}
use rmw_dps.Endpoints.Publisher.Undo.{remove_discovery_topic_lem}
use rmw_dps.Endpoints.Service.{
  Outcomes, Service, fail_service, advertise_service, create_service, destroy_service,
}

abbrev types_heap : ℕ → Heap → Heap
types_heap p heap = (response_type_support, p) ∷ (request_type_support, p) ∷ (info, p) ∷ heap

-- The heap with everything that belongs to a service but its handle.
abbrev bare_heap : ℕ → Heap → Heap
bare_heap p heap = (subscription, p) ∷ (listener, p) ∷ types_heap p heap

-- The heap with everything that belongs to a service.
abbrev service_heap : ℕ → Heap → Heap
service_heap p heap = (topic_name, p) ∷ (handle, p) ∷ bare_heap p heap

fail_service_lem :
    (p : ℕ) (impl : NodeImpl) (heap : Heap)
    → ((fail_service p false false false false
          (record impl { heap = (listener, p) ∷ types_heap p heap })).1.heap
        ≡ (listener, p) ∷ heap)
      × ((fail_service p true false false false (record impl { heap = bare_heap p heap })).1.heap
          ≡ (listener, p) ∷ heap)
      × ((fail_service p true true false false (record impl { heap = bare_heap p heap })).1.heap
          ≡ heap)
      × ((fail_service p true true true false
            (record impl { heap = (handle, p) ∷ bare_heap p heap })).1.heap
          ≡ heap)
unfolding fail_service release
fail_service_lem p impl heap = (ground arith, ground arith, ground arith, ground arith)

fail_service_all :
    (p : ℕ) (impl : NodeImpl) (heap : Heap)
    → impl.heap ≡ service_heap p heap
    → (fail_service p true true true true impl).1.heap ≡ heap
unfolding fail_service release
fail_service_all p impl heap h = ground (arith, h)

advertise_service_fails :
    (publish : List Text → Bool) (p : ℕ) (name entry : Text) (impl : NodeImpl) (heap : Heap)
    → impl.heap ≡ service_heap p heap
    → (advertise_service publish p name entry impl).0 ≡ none
    → (advertise_service publish p name entry impl).1.heap ≡ heap
unfolding advertise_service
advertise_service_fails publish p name entry impl heap h e =
    let kept = add_discovery_topic_lem publish entry impl in
    let freed = fail_service_all p (add_discovery_topic publish entry impl).1 heap in
    ground (arith, kept, freed)

-- The listener is allocated, and is not made the data of the subscription.
abbrev pub listener_lost : Outcomes → Bool
listener_lost outcomes = not outcomes.create_subscription || not outcomes.set_subscription_data

-- When rmw_create_service fails after its tests, everything that it allocated is freed, except if
-- DPS_CreateSubscription or DPS_SetSubscriptionData fails: then the listener, and only it, stays
-- allocated.
pub create_service_fails :
    (publish : List Text → Bool) (outcomes : Outcomes) (p : ℕ)
    (name request_type_name response_type_name : Text) (impl : NodeImpl)
    → (create_service publish outcomes p name request_type_name response_type_name impl).0 ≡ none
    → (create_service publish outcomes p name request_type_name response_type_name impl).1.heap
      ≡ (if listener_lost outcomes then (listener, p) ∷ impl.heap else impl.heap)
unfolding create_service
create_service_fails publish outcomes p name request_type_name response_type_name impl h =
    let frees = fail_service_lem p impl impl.heap in
    let rest =
      advertise_service_fails publish p name
        (service_discovery_name name request_type_name response_type_name)
        (record impl { heap = service_heap p impl.heap }) impl.heap refl in
    ground (arith, frees, rest)

-- The service that is returned.
abbrev made_with : ℕ → Text → Text → Service
made_with p name entry = record {
  owner = p;
  data_ = some (record {
    pointer = p;
    discovery_name = entry;
    has_subscription = true;
    data_set = true;
    has_type_supports = true;
  });
  name = some name;
}

-- A service is returned only if everything succeeded.
created :
    (publish : List Text → Bool) (outcomes : Outcomes) (p : ℕ)
    (name request_type_name response_type_name : Text) (impl : NodeImpl) (made : Service)
    → (create_service publish outcomes p name request_type_name response_type_name impl).0
      ≡ some made
    → (made ≡ made_with p name (service_discovery_name name request_type_name response_type_name))
      × ((create_service publish outcomes p name request_type_name response_type_name impl).1
          ≡ (add_discovery_topic publish
              (service_discovery_name name request_type_name response_type_name)
              (record impl { heap = service_heap p impl.heap })).1)
unfolding create_service advertise_service fail_service
created publish outcomes p name request_type_name response_type_name impl made h =
    (ground arith, ground arith)

module _ (publish : List Text → Bool) (p : ℕ) (name entry : Text) (impl : NodeImpl) where
  destroyed-heap :
      (heap : Heap)
      → impl.heap ≡ service_heap p heap
      → (destroy_service publish (made_with p name entry) impl).heap ≡ heap
  unfolding destroy_service release
  destroyed-heap heap h = ground (arith, remove_discovery_topic_lem publish entry impl)

  destroyed-payload :
      (u : Text)
      → occurrences u (destroy_service publish (made_with p name entry) impl).discovery_payload ≡ (
          if text_eq entry u
          then occurrences u impl.discovery_payload - 1
          else occurrences u impl.discovery_payload)
  unfolding destroy_service
  destroyed-payload u = occurrences-remove_discovery_topic publish entry u impl

-- If rmw_create_service returns a service, then after rmw_destroy_service of it what is allocated is as
-- before, and every entry is in the payload as often as before.
pub destroy_service-create_service :
    (publish : List Text → Bool) (outcomes : Outcomes) (p : ℕ)
    (name request_type_name response_type_name u : Text) (impl : NodeImpl) (made : Service)
    → (create_service publish outcomes p name request_type_name response_type_name impl).0
      ≡ some made
    → (left : NodeImpl) × (left
        ≡ destroy_service publish made
            (create_service publish outcomes p name request_type_name response_type_name impl).1)
      × (left.heap ≡ impl.heap)
      × (occurrences u left.discovery_payload ≡ occurrences u impl.discovery_payload)
destroy_service-create_service publish outcomes p name request_type_name response_type_name u impl
      made h =
    let entry = service_discovery_name name request_type_name response_type_name in
    let full : NodeImpl = record impl { heap = service_heap p impl.heap } in
    let added = (add_discovery_topic publish entry full).1 in
    let kept = add_discovery_topic_lem publish entry full in
    let (same, left) =
      created publish outcomes p name request_type_name response_type_name impl made h in
    rw (same, left)
      (
        _,
        refl,
        destroyed-heap publish p name entry added impl.heap kept.0,
        destroyed-payload publish p name entry added u
            ∙ ground (arith, occurrences-add_discovery_topic publish entry u full),
      )
