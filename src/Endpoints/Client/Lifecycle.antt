-- ===== src/Endpoints/Client/Lifecycle.antt =====
-- What a creation of a client in rmw_dps_cpp/src/rmw_client.cpp leaves, if it fails, and if the
-- client is destroyed.
use rmw_dps.Prelude.{
  ℕ, ◌-◌, ◌≡◌, refl, ◌∙◌, Bool, true, false, not, ◌&&◌, List, ◌∷◌, none, some, arith, if◌then◌else◌,
}
use rmw_dps.Text.{Text, text_eq}
use rmw_dps.Discovery.Names.{client_discovery_name}
use rmw_dps.Endpoints.Heap.{
  release, Heap, info, request_type_support, response_type_support, publication, listener, handle,
  topic_name,
}
use rmw_dps.Endpoints.Payload.{NodeImpl, add_discovery_topic}
use rmw_dps.Endpoints.Payload.Entries.{
  occurrences, occurrences-add_discovery_topic, occurrences-remove_discovery_topic,
}
use rmw_dps.Endpoints.Publisher.Lifecycle.{add_discovery_topic_lem}
use rmw_dps.Endpoints.Publisher.Undo.{remove_discovery_topic_lem}
use rmw_dps.Endpoints.Client.{
  Outcomes, Client, fail_client, advertise_client, create_client, destroy_client,
}

abbrev types_heap : ℕ → Heap → Heap
types_heap p heap = (response_type_support, p) ∷ (request_type_support, p) ∷ (info, p) ∷ heap

-- The heap with everything that belongs to a client but its handle.
abbrev bare_heap : ℕ → Heap → Heap
bare_heap p heap = (listener, p) ∷ (publication, p) ∷ types_heap p heap

-- The heap with everything that belongs to a client.
abbrev client_heap : ℕ → Heap → Heap
client_heap p heap = (topic_name, p) ∷ (handle, p) ∷ bare_heap p heap

fail_client_lem :
    (p : ℕ) (impl : NodeImpl) (heap : Heap)
    → ((fail_client p false false false false (record impl { heap = types_heap p heap })).1.heap
        ≡ heap)
      × ((fail_client p true false false false (record impl { heap = bare_heap p heap })).1.heap
          ≡ (listener, p) ∷ heap)
      × ((fail_client p true true false false (record impl { heap = bare_heap p heap })).1.heap
          ≡ heap)
      × ((fail_client p true true true false
            (record impl { heap = (handle, p) ∷ bare_heap p heap })).1.heap
          ≡ heap)
unfolding fail_client release
fail_client_lem p impl heap = (ground arith, ground arith, ground arith, ground arith)

fail_client_all :
    (p : ℕ) (impl : NodeImpl) (heap : Heap)
    → impl.heap ≡ client_heap p heap
    → (fail_client p true true true true impl).1.heap ≡ heap
unfolding fail_client release
fail_client_all p impl heap h = ground (arith, h)

advertise_client_fails :
    (publish : List Text → Bool) (p : ℕ) (name entry : Text) (impl : NodeImpl) (heap : Heap)
    → impl.heap ≡ client_heap p heap
    → (advertise_client publish p name entry impl).0 ≡ none
    → (advertise_client publish p name entry impl).1.heap ≡ heap
unfolding advertise_client
advertise_client_fails publish p name entry impl heap h e =
    let kept = add_discovery_topic_lem publish entry impl in
    let freed = fail_client_all p (add_discovery_topic publish entry impl).1 heap in
    ground (arith, kept, freed)

-- The listener is allocated, and is not made the data of the publication.
abbrev pub listener_lost : Outcomes → Bool
listener_lost outcomes = outcomes.create_publication && not outcomes.set_publication_data

-- When rmw_create_client fails after its tests, everything that it allocated is freed, except if
-- DPS_SetPublicationData fails: then the listener, and only it, stays allocated.
pub create_client_fails :
    (publish : List Text → Bool) (outcomes : Outcomes) (p : ℕ)
    (name request_type_name response_type_name : Text) (impl : NodeImpl)
    → (create_client publish outcomes p name request_type_name response_type_name impl).0 ≡ none
    → (create_client publish outcomes p name request_type_name response_type_name impl).1.heap
      ≡ (if listener_lost outcomes then (listener, p) ∷ impl.heap else impl.heap)
unfolding create_client
create_client_fails publish outcomes p name request_type_name response_type_name impl h =
    let frees = fail_client_lem p impl impl.heap in
    let rest =
      advertise_client_fails publish p name
        (client_discovery_name name request_type_name response_type_name)
        (record impl { heap = client_heap p impl.heap }) impl.heap refl in
    ground (arith, frees, rest)

-- The client that is returned.
abbrev made_with : ℕ → Text → Text → Client
made_with p name entry = record {
  owner = p;
  data_ = some (record {
    pointer = p;
    discovery_name = entry;
    has_publication = true;
    data_set = true;
    has_type_supports = true;
  });
  name = some name;
}

-- A client is returned only if everything succeeded.
created :
    (publish : List Text → Bool) (outcomes : Outcomes) (p : ℕ)
    (name request_type_name response_type_name : Text) (impl : NodeImpl) (made : Client)
    → (create_client publish outcomes p name request_type_name response_type_name impl).0
      ≡ some made
    → (made ≡ made_with p name (client_discovery_name name request_type_name response_type_name))
      × ((create_client publish outcomes p name request_type_name response_type_name impl).1
          ≡ (add_discovery_topic publish
              (client_discovery_name name request_type_name response_type_name)
              (record impl { heap = client_heap p impl.heap })).1)
unfolding create_client advertise_client fail_client
created publish outcomes p name request_type_name response_type_name impl made h =
    (ground arith, ground arith)

module _ (publish : List Text → Bool) (p : ℕ) (name entry : Text) (impl : NodeImpl) where
  destroyed-heap :
      (heap : Heap)
      → impl.heap ≡ client_heap p heap
      → (destroy_client publish (made_with p name entry) impl).heap ≡ heap
  unfolding destroy_client release
  destroyed-heap heap h = ground (arith, remove_discovery_topic_lem publish entry impl)

  destroyed-payload :
      (u : Text)
      → occurrences u (destroy_client publish (made_with p name entry) impl).discovery_payload ≡ (
          if text_eq entry u
          then occurrences u impl.discovery_payload - 1
          else occurrences u impl.discovery_payload)
  unfolding destroy_client
  destroyed-payload u = occurrences-remove_discovery_topic publish entry u impl

-- If rmw_create_client returns a client, then after rmw_destroy_client of it what is allocated is as
-- before, and every entry is in the payload as often as before.
pub destroy_client-create_client :
    (publish : List Text → Bool) (outcomes : Outcomes) (p : ℕ)
    (name request_type_name response_type_name u : Text) (impl : NodeImpl) (made : Client)
    → (create_client publish outcomes p name request_type_name response_type_name impl).0
      ≡ some made
    → (left : NodeImpl) × (left
        ≡ destroy_client publish made
            (create_client publish outcomes p name request_type_name response_type_name impl).1)
      × (left.heap ≡ impl.heap)
      × (occurrences u left.discovery_payload ≡ occurrences u impl.discovery_payload)
destroy_client-create_client publish outcomes p name request_type_name response_type_name u impl
      made h =
    let entry = client_discovery_name name request_type_name response_type_name in
    let full : NodeImpl = record impl { heap = client_heap p impl.heap } in
    let added = (add_discovery_topic publish entry full).1 in
    let kept = add_discovery_topic_lem publish entry full in
    let (same, left) =
      created publish outcomes p name request_type_name response_type_name impl made h in
    rw (same, left)
      (
        _,
        refl,
        destroyed-heap publish p name entry added impl.heap kept.0,
        destroyed-payload publish p name entry added u
            ∙ ground (arith, occurrences-add_discovery_topic publish entry u full),
      )
