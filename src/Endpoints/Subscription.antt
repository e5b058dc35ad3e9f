-- ===== src/Endpoints/Subscription.antt =====
-- rmw_create_subscription and rmw_destroy_subscription of rmw_dps_cpp/src/rmw_subscription.cpp. The
-- outcomes of the calls of DPS and of the allocators are parameters. DPS_DestroySubscription runs its
-- callback, which deletes the listener if it was set as the subscription's data. Debug messages and
-- the quality of service profile are left out.
pub mod Lifecycle
pub mod Undo
use rmw_dps.Prelude.{
  ℕ, Bool, true, false, not, List, [], ◌∷◌, Option, none, some, if◌then◌else◌, ◌&&◌,
}
use rmw_dps.Text.{Text}
use rmw_dps.Rmw.{RmwRet, ok, error, Handle}
use rmw_dps.Discovery.Names.{subscription_discovery_name, create_type_name}
use rmw_dps.Discovery.NodeListener.{insert_info, erase_info, infos_at}
use rmw_dps.Endpoints.Publisher.{matched_count_at}
use rmw_dps.Endpoints.Heap.{
  Heap, info, type_support, subscription, listener, handle, topic_name, release, release_if,
}
use rmw_dps.Endpoints.Payload.{NodeImpl, add_discovery_topic, remove_discovery_topic}
use rmw_dps.Rmw.{is_ok}

-- CustomSubscriberInfo, as far as it is not in subscribers_: it is named by `pointer`. `data_set` is
-- whether the listener is the data of the subscription.
pub record SubscriberInfo : Type 0 where
  pub pointer : ℕ
  pub discovery_name : Text
  pub has_subscription : Bool
  pub data_set : Bool
  pub has_type_support : Bool

-- rmw_subscription_t; `owner` is the pointer that its own memory is named by.
pub record Subscription : Type 0 where
  pub owner : ℕ
  pub data_ : Option SubscriberInfo
  pub name : Option Text

-- What DPS_CreateSubscription, DPS_SetSubscriptionData, DPS_Subscribe, rmw_subscription_allocate and
-- rmw_allocate return.
pub record Outcomes : Type 0 where
  pub create_subscription : Bool
  pub set_subscription_data : Bool
  pub subscribe : Bool
  pub subscription_allocate : Bool
  pub allocate : Bool

-- DPS_DestroySubscription, with its callback.
unfoldable pub destroy_dps_subscription : Bool → ℕ → Heap → Heap
destroy_dps_subscription data_set p h = release_if data_set listener p (release subscription p h)

-- The code at `fail`, with what is not null by then.
unfoldable pub fail_subscription :
    ℕ → Bool → Bool → Bool → Bool → NodeImpl → Option Subscription × NodeImpl
unfolding destroy_dps_subscription
fail_subscription p has_subscription data_set has_handle has_name impl =
    let h₁ =
      if has_subscription then destroy_dps_subscription data_set p impl.heap else impl.heap in
    let h₂ = release info p (release type_support p h₁) in
    let h₃ = release_if has_name topic_name p h₂ in
    (none, record impl { heap = release_if has_handle handle p h₃ })

-- { std::lock_guard … impl->subscribers_[topic_name].insert(info); }
unfoldable pub register_subscription : Text → ℕ → NodeImpl → NodeImpl
register_subscription name p impl = record impl {
  discovery = record impl.discovery { subscribers = insert_info name p impl.discovery.subscribers };
}

unfoldable pub unregister_subscription : Text → ℕ → NodeImpl → NodeImpl
unregister_subscription name p impl = record impl {
  discovery = record impl.discovery { subscribers = erase_info name p impl.discovery.subscribers };
}

module _ (publish : List Text → Bool) where
  -- The end of rmw_create_subscription: the endpoint is made known, and registered.
  unfoldable pub advertise_subscription :
      ℕ → Text → Text → NodeImpl → Option Subscription × NodeImpl
  advertise_subscription p name entry impl =
      let impl' = (add_discovery_topic publish entry impl).1 in
      if is_ok (add_discovery_topic publish entry impl).0
      then (
        some (record {
          owner = p;
          data_ = some (record {
            pointer = p;
            discovery_name = entry;
            has_subscription = true;
            data_set = true;
            has_type_support = true;
          });
          name = some name;
        }),
        register_subscription name p impl',
      )
      else fail_subscription p true true true true impl'

  -- rmw_create_subscription from `new CustomSubscriberInfo()` on; `p` is the new pointer.
  unfoldable pub create_subscription :
      Outcomes → ℕ → Text → Text → NodeImpl → Option Subscription × NodeImpl
  create_subscription outcomes p name type_name impl =
      let h₁ = (type_support, p) ∷ (info, p) ∷ impl.heap in
      let h₂ = (listener, p) ∷ (subscription, p) ∷ h₁ in
      let h₃ = (handle, p) ∷ h₂ in
      let h₄ = (topic_name, p) ∷ h₃ in
      if not outcomes.create_subscription
      then fail_subscription p false false false false (record impl { heap = h₁ })
      else if not outcomes.set_subscription_data
      then fail_subscription p true false false false (record impl { heap = h₂ })
      else if not outcomes.subscribe
      then fail_subscription p true true false false (record impl { heap = h₂ })
      else if not outcomes.subscription_allocate
      then fail_subscription p true true false false (record impl { heap = h₂ })
      else if not outcomes.allocate
      then fail_subscription p true true true false (record impl { heap = h₃ })
      else advertise_subscription p name (subscription_discovery_name name type_name)
          (record impl { heap = h₄ })

  -- The tests of rmw_create_subscription: whether they pass, in their order. `found` is whether a type
  -- support of this implementation is found.
  unfoldable pub check_create_subscription :
      Option (Handle NodeImpl) → Option Text → Bool → Bool → Option (NodeImpl × Text)
  check_create_subscription none name qos_policies found = none
  check_create_subscription (some node) none qos_policies found = none
  check_create_subscription (some node) (some []) qos_policies found = none
  check_create_subscription (some node) (some (c ∷ name)) qos_policies found =
      if node.ours && qos_policies
      then elim node.data_ [
        | none ↦ none
        | some impl ↦ if found then some (impl, c ∷ name) else none
      ]
      else none

  -- rmw_create_subscription: the subscription, and the node's data if it can have changed.
  unfoldable pub rmw_create_subscription :
      Outcomes
      → ℕ
      → Option (Handle NodeImpl)
      → Option (Text × Text)
      → Option Text
      → Bool
      → Option Subscription × Option NodeImpl
  rmw_create_subscription outcomes p at_node none name qos_policies = (none, none)
  rmw_create_subscription outcomes p at_node (some (message_namespace, message_name)) name
        qos_policies =
      elim (check_create_subscription at_node name qos_policies true) [
        | none ↦ (none, none)
        | some (impl, topic) ↦
            let type_name = create_type_name message_namespace message_name in
            let (made, impl') = create_subscription outcomes p topic type_name impl in
            (made, some impl')
      ]

  -- The part of rmw_destroy_subscription under `if (info)`.
  unfoldable pub destroy_info : Option Text → SubscriberInfo → NodeImpl → NodeImpl
  unfolding destroy_dps_subscription
  destroy_info name i impl =
      let impl₁ : NodeImpl = elim name [
        | none ↦ impl
        | some t ↦ unregister_subscription t i.pointer impl
      ] in
      let impl₂ = (remove_discovery_topic publish i.discovery_name impl₁).1 in
      let h =
        if i.has_subscription
        then destroy_dps_subscription i.data_set i.pointer impl₂.heap
        else impl₂.heap in
      let h' = release_if i.has_type_support type_support i.pointer h in
      record impl₂ { heap = release info i.pointer h' }

  -- rmw_destroy_subscription after its tests.
  unfoldable pub destroy_subscription : Subscription → NodeImpl → NodeImpl
  unfolding destroy_info
  destroy_subscription made impl =
      let impl' : NodeImpl = elim made.data_ [
        | none ↦ impl
        | some i ↦ destroy_info made.name i impl
      ] in
      let h : Heap = elim made.name [
        | none ↦ impl'.heap
        | some t ↦ release topic_name made.owner impl'.heap
      ] in
      record impl' { heap = release handle made.owner h }

  unfoldable pub rmw_destroy_subscription :
      Option (Handle NodeImpl) → Option (Bool × Subscription) → RmwRet × Option NodeImpl
  rmw_destroy_subscription none made = (error, none)
  rmw_destroy_subscription (some node) none = (error, node.data_)
  rmw_destroy_subscription (some node) (some (ours, made)) =
      if node.ours
      then elim node.data_ [
        | none ↦ (error, none)
        | some impl ↦
            if ours then (ok, some (destroy_subscription made impl)) else (error, some impl)
      ]
      else (error, node.data_)

-- rmw_subscription_count_matched_publishers: the return code and `*publisher_count`, if written.
unfoldable pub rmw_subscription_count_matched_publishers :
    Subscription → NodeImpl → RmwRet × Option ℕ
unfolding matched_count_at
rmw_subscription_count_matched_publishers made impl = elim made.data_ [
  | none ↦ (ok, none)
  | some i ↦ elim made.name [
    | none ↦ (ok, none)
    | some name ↦ (ok, matched_count_at i.pointer (infos_at name impl.discovery.subscribers))
  ]
]
