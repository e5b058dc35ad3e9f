-- ===== src/Endpoints/Subscription/Undo.antt =====
-- rmw_destroy_subscription after rmw_create_subscription, of rmw_dps_cpp/src/rmw_subscription.cpp.
use rmw_dps.Prelude.{ℕ, ◌-◌, ◌≡◌, refl, ap, ◌∙◌, Bool, true, List, some, arith, if◌then◌else◌}
use rmw_dps.Text.{Text, text_eq}
use rmw_dps.Discovery.Names.{subscription_discovery_name}
use rmw_dps.Discovery.NodeListener.{NodeInfo, infos_at, insert_info, erase_info}
use rmw_dps.Endpoints.Heap.{release, Heap}
use rmw_dps.Endpoints.Payload.{NodeImpl, add_discovery_topic}
use rmw_dps.Endpoints.Payload.Entries.{
  occurrences, occurrences-add_discovery_topic, occurrences-remove_discovery_topic,
}
use rmw_dps.Endpoints.Publisher.Lifecycle.{add_discovery_topic_lem}
use rmw_dps.Endpoints.Publisher.Undo.{IsFresh, erase_info-insert_info, remove_discovery_topic_lem}
use rmw_dps.Endpoints.Subscription.{
  Outcomes, Subscription, fail_subscription, advertise_subscription, create_subscription,
  destroy_subscription, register_subscription, unregister_subscription,
}
use rmw_dps.Endpoints.Subscription.Lifecycle.{subscription_heap}

-- The subscription that is returned.
abbrev made : ℕ → Text → Text → Subscription
made p name entry = record {
  owner = p;
  data_ = some (record {
    pointer = p;
    discovery_name = entry;
    has_subscription = true;
    data_set = true;
    has_type_support = true;
  });
  name = some name;
}

-- A subscription is returned only if everything succeeded.
created :
    (publish : List Text → Bool) (outcomes : Outcomes) (p : ℕ) (name type_name : Text)
    (impl : NodeImpl) (returned : Subscription)
    → (create_subscription publish outcomes p name type_name impl).0 ≡ some returned
    → (returned ≡ made p name (subscription_discovery_name name type_name))
      × ((create_subscription publish outcomes p name type_name impl).1
          ≡ register_subscription name p
              (add_discovery_topic publish
                (subscription_discovery_name name type_name)
                (record impl { heap = subscription_heap p impl.heap })).1)
unfolding create_subscription advertise_subscription fail_subscription
created publish outcomes p name type_name impl returned h = (ground arith, ground arith)

-- What the destruction of the subscription that was returned leaves.
module _ (publish : List Text → Bool) (p : ℕ) (name entry : Text) (impl : NodeImpl) where
  destroyed-heap :
      (heap : Heap)
      → impl.heap ≡ subscription_heap p heap
      → (destroy_subscription publish (made p name entry) impl).heap ≡ heap
  unfolding destroy_subscription unregister_subscription release
  destroyed-heap heap h =
      ground (arith, remove_discovery_topic_lem publish entry (unregister_subscription name p impl))

  destroyed-payload :
      (u : Text)
      → occurrences u (destroy_subscription publish (made p name entry) impl).discovery_payload ≡ (
          if text_eq entry u
          then occurrences u impl.discovery_payload - 1
          else occurrences u impl.discovery_payload)
  unfolding destroy_subscription unregister_subscription
  destroyed-payload u =
      occurrences-remove_discovery_topic publish entry u (unregister_subscription name p impl)

  destroyed-discovery :
      (destroy_subscription publish (made p name entry) impl).discovery
      ≡ (unregister_subscription name p impl).discovery
  unfolding destroy_subscription
  destroyed-discovery =
      (remove_discovery_topic_lem publish entry (unregister_subscription name p impl)).1

-- If rmw_create_subscription returns a subscription, with a pointer that no endpoint of the topic has,
-- then rmw_destroy_subscription of it takes everything back: what is allocated is as before, every
-- entry is in the payload as often as before, and the endpoints of every topic are as before.
pub destroy_subscription-create_subscription :
    (publish : List Text → Bool) (outcomes : Outcomes) (p : ℕ) (name type_name u t : Text)
    (impl : NodeImpl) (returned : Subscription)
    → (create_subscription publish outcomes p name type_name impl).0 ≡ some returned
    → IsFresh p name impl.discovery.subscribers
    → (left : NodeImpl) × (left
        ≡ destroy_subscription publish returned
            (create_subscription publish outcomes p name type_name impl).1)
      × (left.heap ≡ impl.heap)
      × (occurrences u left.discovery_payload ≡ occurrences u impl.discovery_payload)
      × (infos_at t left.discovery.subscribers ≡ infos_at t impl.discovery.subscribers)
unfolding register_subscription unregister_subscription
destroy_subscription-create_subscription publish outcomes p name type_name u t impl returned h
      fresh =
    let entry = subscription_discovery_name name type_name in
    let full : NodeImpl = record impl { heap = subscription_heap p impl.heap } in
    let added = (add_discovery_topic publish entry full).1 in
    let kept = add_discovery_topic_lem publish entry full in
    let (same, left) = created publish outcomes p name type_name impl returned h in
    rw (same, left)
      (
        _,
        refl,
        destroyed-heap publish p name entry (register_subscription name p added) impl.heap kept.0,
        destroyed-payload publish p name entry (register_subscription name p added) u
            ∙ ground (arith, occurrences-add_discovery_topic publish entry u full),
        ap (λ (d : NodeInfo). infos_at t d.subscribers)
              (destroyed-discovery publish p name entry (register_subscription name p added))
            ∙ ap
                (λ (d : NodeInfo).
                  infos_at t (erase_info name p (insert_info name p d.subscribers)))
                kept.1
            ∙ erase_info-insert_info p name t impl.discovery.subscribers fresh,
      )
