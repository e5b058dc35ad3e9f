-- ===== src/Endpoints/Subscription/Lifecycle.antt =====
-- What a creation of a subscription in rmw_dps_cpp/src/rmw_subscription.cpp that fails leaves.
use rmw_dps.Prelude.{
  ℕ, ◌≡◌, refl, Bool, true, false, not, ◌&&◌, List, ◌∷◌, none, arith, if◌then◌else◌,
}
use rmw_dps.Text.{Text}
use rmw_dps.Discovery.Names.{subscription_discovery_name}
use rmw_dps.Endpoints.Heap.{
  release, Heap, info, type_support, subscription, listener, handle, topic_name,
}
use rmw_dps.Endpoints.Payload.{NodeImpl, add_discovery_topic}
use rmw_dps.Endpoints.Publisher.Lifecycle.{add_discovery_topic_lem}
use rmw_dps.Endpoints.Subscription.{
  Outcomes, fail_subscription, advertise_subscription, create_subscription,
}

-- The heap with everything that belongs to a subscription but its handle.
abbrev pub bare_heap : ℕ → Heap → Heap
bare_heap p heap = (listener, p) ∷ (subscription, p) ∷ (type_support, p) ∷ (info, p) ∷ heap

-- The heap with everything that belongs to a subscription.
abbrev pub subscription_heap : ℕ → Heap → Heap
subscription_heap p heap = (topic_name, p) ∷ (handle, p) ∷ bare_heap p heap

fail_subscription_lem :
    (p : ℕ) (impl : NodeImpl) (heap : Heap)
    → ((fail_subscription p false false false false
          (record impl { heap = (type_support, p) ∷ (info, p) ∷ heap })).1.heap
        ≡ heap)
      × ((fail_subscription p true false false false
            (record impl { heap = bare_heap p heap })).1.heap
          ≡ (listener, p) ∷ heap)
      × ((fail_subscription p true true false false
            (record impl { heap = bare_heap p heap })).1.heap
          ≡ heap)
      × ((fail_subscription p true true true false
            (record impl { heap = (handle, p) ∷ bare_heap p heap })).1.heap
          ≡ heap)
unfolding fail_subscription release
fail_subscription_lem p impl heap = (ground arith, ground arith, ground arith, ground arith)

fail_subscription_all :
    (p : ℕ) (impl : NodeImpl) (heap : Heap)
    → impl.heap ≡ subscription_heap p heap
    → ((fail_subscription p true true true true impl).1.heap ≡ heap)
      × ((fail_subscription p true true true true impl).1.discovery ≡ impl.discovery)
unfolding fail_subscription release
fail_subscription_all p impl heap h = (ground (arith, h), refl)

fail_subscription-discovery :
    (p : ℕ) (a b c d : Bool) (impl : NodeImpl)
    → (fail_subscription p a b c d impl).1.discovery ≡ impl.discovery
unfolding fail_subscription
fail_subscription-discovery p a b c d impl = refl

advertise_subscription_fails :
    (publish : List Text → Bool) (p : ℕ) (name entry : Text) (impl : NodeImpl) (heap : Heap)
    → impl.heap ≡ subscription_heap p heap
    → (advertise_subscription publish p name entry impl).0 ≡ none
    → ((advertise_subscription publish p name entry impl).1.heap ≡ heap)
      × ((advertise_subscription publish p name entry impl).1.discovery ≡ impl.discovery)
unfolding advertise_subscription
advertise_subscription_fails publish p name entry impl heap h e =
    let kept = add_discovery_topic_lem publish entry impl in
    let freed = fail_subscription_all p (add_discovery_topic publish entry impl).1 heap in
    (ground (arith, kept, freed), ground (arith, kept, freed))

-- The listener is allocated, and then it is not made the data of the subscription.
abbrev pub listener_lost : Outcomes → Bool
listener_lost outcomes = outcomes.create_subscription && not outcomes.set_subscription_data

-- When rmw_create_subscription fails after its tests, the endpoints and the discovered nodes of the
-- node are as before, and everything that it allocated is freed, except if DPS_SetSubscriptionData
-- fails: then the listener, and only it, stays allocated.
pub create_subscription_fails :
    (publish : List Text → Bool) (outcomes : Outcomes) (p : ℕ) (name type_name : Text)
    (impl : NodeImpl)
    → (create_subscription publish outcomes p name type_name impl).0 ≡ none
    → ((create_subscription publish outcomes p name type_name impl).1.heap
        ≡ (if listener_lost outcomes then (listener, p) ∷ impl.heap else impl.heap))
      × ((create_subscription publish outcomes p name type_name impl).1.discovery ≡ impl.discovery)
unfolding create_subscription
create_subscription_fails publish outcomes p name type_name impl h =
    let frees = fail_subscription_lem p impl impl.heap in
    let rest =
      advertise_subscription_fails publish p name (subscription_discovery_name name type_name)
        (record impl { heap = subscription_heap p impl.heap }) impl.heap refl in
    let bare : NodeImpl = record impl { heap = bare_heap p impl.heap } in
    (
      ground (arith, frees, rest),
      ground (
        arith,
        rest,
        fail_subscription-discovery p false false false false
            (record impl { heap = (type_support, p) ∷ (info, p) ∷ impl.heap }),
        fail_subscription-discovery p true false false false bare,
        fail_subscription-discovery p true true false false bare,
        fail_subscription-discovery p true true true false
            (record impl { heap = (handle, p) ∷ bare_heap p impl.heap }),
      ),
    )
