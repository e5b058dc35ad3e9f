-- ===== src/Endpoints/Publisher/Undo.antt =====
-- rmw_destroy_publisher after rmw_create_publisher, of rmw_dps_cpp/src/rmw_publisher.cpp.
use rmw_dps.Prelude.{
  ℕ, ◌-◌, ◌≡◌, ◌≢◌, refl, ap, ◌∙◌, Bool, true, List, [], ◌∷◌, none, some, arith, if◌then◌else◌, All,
}
use rmw_dps.Text.{Text, text_eq, text_eq→eq, text_eq_refl}
use rmw_dps.TextMap.{put}
use rmw_dps.Discovery.Names.{publisher_discovery_name}
use rmw_dps.Discovery.NodeListener.{
  NodeInfo, MatchedInfo, Infos, infos_at, insert_info, erase_info, without_pointer, new_info,
}
use rmw_dps.Discovery.NodeListener.Rounds.{infos_at-put}
use rmw_dps.Endpoints.Heap.{release, Heap}
use rmw_dps.Endpoints.Payload.{NodeImpl, add_discovery_topic, remove_discovery_topic}
use rmw_dps.Endpoints.Payload.Entries.{
  occurrences, occurrences-add_discovery_topic, occurrences-remove_discovery_topic,
}
use rmw_dps.Endpoints.Publisher.{
  Outcomes, Publisher, fail_publisher, advertise_publisher, create_publisher, destroy_publisher,
  register_publisher, unregister_publisher,
}
use rmw_dps.Endpoints.Publisher.Lifecycle.{publisher_heap, add_discovery_topic_lem}

-- No endpoint of the topic has the pointer.
abbrev pub IsFresh : ℕ → Text → Infos → Type 0
IsFresh p name infos = All (λ i. i.pointer ≢ p) (infos_at name infos)

without_pointer-fresh :
    (p : ℕ) (is : List MatchedInfo) → All (λ i. i.pointer ≢ p) is → without_pointer p is ≡ is
unfolding without_pointer
without_pointer-fresh p [] h = refl
without_pointer-fresh p (i ∷ is) h = ground (arith, h.0, without_pointer-fresh p is h.1)

without_pointer-new :
    (p : ℕ) (is : List MatchedInfo) → without_pointer p (new_info p ∷ is) ≡ without_pointer p is
unfolding without_pointer
without_pointer-new p is = ground arith

pub erase_info-insert_info :
    (p : ℕ) (name t : Text) (infos : Infos)
    → IsFresh p name infos
    → infos_at t (erase_info name p (insert_info name p infos)) ≡ infos_at t infos
unfolding erase_info insert_info
erase_info-insert_info p name t infos h =
    let is = infos_at name infos in
    let with = put name (new_info p ∷ is) infos in
    ground (
      arith,
      infos_at-put t name (without_pointer p (infos_at name with)) with,
      infos_at-put t name (new_info p ∷ is) infos,
      infos_at-put name name (new_info p ∷ is) infos,
      text_eq_refl name,
      text_eq→eq t name,
      without_pointer-fresh p is h,
      without_pointer-new p is,
    )

pub remove_discovery_topic_lem :
    (publish : List Text → Bool) (t : Text) (impl : NodeImpl)
    → ((remove_discovery_topic publish t impl).1.heap ≡ impl.heap)
      × ((remove_discovery_topic publish t impl).1.discovery ≡ impl.discovery)
unfolding remove_discovery_topic
remove_discovery_topic_lem publish t impl = (ground arith, ground arith)

-- The publisher that is returned.
abbrev made : ℕ → Text → Text → Publisher
made p name entry = record {
  owner = p;
  data_ = some (record {
    pointer = p;
    discovery_name = entry;
    has_publication = true;
    has_type_support = true;
  });
  name = some name;
}

fails_none : (p : ℕ) (a b c : Bool) (impl : NodeImpl) → (fail_publisher p a b c impl).0 ≡ none
unfolding fail_publisher
fails_none p a b c impl = refl

-- A publisher is returned only if everything succeeded.
created :
    (publish : List Text → Bool) (outcomes : Outcomes) (p : ℕ) (name type_name : Text)
    (impl : NodeImpl) (publisher : Publisher)
    → (create_publisher publish outcomes p name type_name impl).0 ≡ some publisher
    → (publisher ≡ made p name (publisher_discovery_name name type_name))
      × ((create_publisher publish outcomes p name type_name impl).1
          ≡ register_publisher name p
              (add_discovery_topic publish
                (publisher_discovery_name name type_name)
                (record impl { heap = publisher_heap p impl.heap })).1)
unfolding create_publisher advertise_publisher fail_publisher
created publish outcomes p name type_name impl publisher h = (ground arith, ground arith)

-- What the destruction of the publisher that was returned leaves.
module _ (publish : List Text → Bool) (p : ℕ) (name entry : Text) (impl : NodeImpl) where
  destroyed-heap :
      (heap : Heap)
      → impl.heap ≡ publisher_heap p heap
      → (destroy_publisher publish (made p name entry) impl).heap ≡ heap
  unfolding destroy_publisher unregister_publisher release
  destroyed-heap heap h =
      ground (arith, remove_discovery_topic_lem publish entry (unregister_publisher name p impl))

  destroyed-payload :
      (u : Text)
      → occurrences u (destroy_publisher publish (made p name entry) impl).discovery_payload ≡ (
          if text_eq entry u
          then occurrences u impl.discovery_payload - 1
          else occurrences u impl.discovery_payload)
  unfolding destroy_publisher unregister_publisher
  destroyed-payload u =
      occurrences-remove_discovery_topic publish entry u (unregister_publisher name p impl)

  destroyed-discovery :
      (destroy_publisher publish (made p name entry) impl).discovery
      ≡ (unregister_publisher name p impl).discovery
  unfolding destroy_publisher
  destroyed-discovery =
      (remove_discovery_topic_lem publish entry (unregister_publisher name p impl)).1

-- If rmw_create_publisher returns a publisher, with a pointer that no endpoint of the topic has, then
-- rmw_destroy_publisher of it takes everything back: what is allocated is as before, every entry is in
-- the payload as often as before, and the endpoints of every topic are as before.
pub destroy_publisher-create_publisher :
    (publish : List Text → Bool) (outcomes : Outcomes) (p : ℕ) (name type_name u t : Text)
    (impl : NodeImpl) (publisher : Publisher)
    → (create_publisher publish outcomes p name type_name impl).0 ≡ some publisher
    → IsFresh p name impl.discovery.publishers
    → (left : NodeImpl) × (left
        ≡ destroy_publisher publish publisher
            (create_publisher publish outcomes p name type_name impl).1)
      × (left.heap ≡ impl.heap)
      × (occurrences u left.discovery_payload ≡ occurrences u impl.discovery_payload)
      × (infos_at t left.discovery.publishers ≡ infos_at t impl.discovery.publishers)
unfolding register_publisher unregister_publisher
destroy_publisher-create_publisher publish outcomes p name type_name u t impl publisher h fresh =
    let entry = publisher_discovery_name name type_name in
    let full : NodeImpl = record impl { heap = publisher_heap p impl.heap } in
    let added = (add_discovery_topic publish entry full).1 in
    let kept = add_discovery_topic_lem publish entry full in
    let (same, left) = created publish outcomes p name type_name impl publisher h in
    rw (same, left)
      (
        _,
        refl,
        destroyed-heap publish p name entry (register_publisher name p added) impl.heap kept.0,
        destroyed-payload publish p name entry (register_publisher name p added) u
            ∙ ground (arith, occurrences-add_discovery_topic publish entry u full),
        ap (λ (d : NodeInfo). infos_at t d.publishers)
              (destroyed-discovery publish p name entry (register_publisher name p added))
            ∙ ap
                (λ (d : NodeInfo). infos_at t (erase_info name p (insert_info name p d.publishers)))
                kept.1
            ∙ erase_info-insert_info p name t impl.discovery.publishers fresh,
      )
