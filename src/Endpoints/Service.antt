-- ===== src/Endpoints/Service.antt =====
-- rmw_create_service and rmw_destroy_service of rmw_dps_cpp/src/rmw_service.cpp. The outcomes of the calls of DPS and
-- of the allocators are parameters. DPS_DestroySubscription runs its callback, which deletes the
-- listener if it was set as the data. Debug messages are left out.
pub mod Lifecycle
use rmw_dps.Prelude.{
  ℕ, Bool, true, false, not, List, [], ◌∷◌, Option, none, some, if◌then◌else◌, ◌&&◌,
}
use rmw_dps.Text.{Text}
use rmw_dps.Rmw.{RmwRet, ok, error, is_ok, Handle}
use rmw_dps.Discovery.Names.{service_discovery_name, create_type_name}
use rmw_dps.Endpoints.Heap.{
  Heap, info, request_type_support, response_type_support, subscription, listener, handle,
  topic_name, release, release_if,
}
use rmw_dps.Endpoints.Payload.{NodeImpl, add_discovery_topic, remove_discovery_topic}

-- CustomServiceInfo. `data_set` is whether the listener is the data of the subscription.
pub record ServiceInfo : Type 0 where
  pub pointer : ℕ
  pub discovery_name : Text
  pub has_subscription : Bool
  pub data_set : Bool
  pub has_type_supports : Bool

-- rmw_service_t; `owner` is the pointer that its own memory is named by.
pub record Service : Type 0 where
  pub owner : ℕ
  pub data_ : Option ServiceInfo
  pub name : Option Text

-- What the calls return, in their order.
pub record Outcomes : Type 0 where
  pub create_subscription : Bool
  pub set_subscription_data : Bool
  pub subscribe : Bool
  pub service_allocate : Bool
  pub allocate : Bool

-- DPS_DestroySubscription, with its callback.
unfoldable pub destroy_request_subscription : Bool → ℕ → Heap → Heap
destroy_request_subscription data_set p h =
    release_if data_set listener p (release subscription p h)

-- The code at `fail`, with what is not null by then.
unfoldable pub fail_service : ℕ → Bool → Bool → Bool → Bool → NodeImpl → Option Service × NodeImpl
unfolding destroy_request_subscription
fail_service p has_subscription data_set has_handle has_name impl =
    let h₁ = release response_type_support p (release request_type_support p impl.heap) in
    let h₂ = if has_subscription then destroy_request_subscription data_set p h₁ else h₁ in
    let h₃ = release_if has_name topic_name p (release info p h₂) in
    (none, record impl { heap = release_if has_handle handle p h₃ })

module _ (publish : List Text → Bool) where
  -- The end of rmw_create_service: the endpoint is made known.
  unfoldable pub advertise_service : ℕ → Text → Text → NodeImpl → Option Service × NodeImpl
  advertise_service p name entry impl =
      let impl' = (add_discovery_topic publish entry impl).1 in
      if is_ok (add_discovery_topic publish entry impl).0
      then (
        some (record {
          owner = p;
          data_ = some (record {
            pointer = p;
            discovery_name = entry;
            has_subscription = true;
            data_set = true;
            has_type_supports = true;
          });
          name = some name;
        }),
        impl',
      )
      else fail_service p true true true true impl'

  -- rmw_create_service from `new CustomServiceInfo()` on; `p` is the new pointer.
  unfoldable pub create_service :
      Outcomes → ℕ → Text → Text → Text → NodeImpl → Option Service × NodeImpl
  create_service outcomes p name request_type_name response_type_name impl =
      let h₀ = (response_type_support, p) ∷ (request_type_support, p) ∷ (info, p) ∷ impl.heap in
      let h₁ = (listener, p) ∷ h₀ in
      let h₂ = (subscription, p) ∷ h₁ in
      let h₃ = (handle, p) ∷ h₂ in
      let h₄ = (topic_name, p) ∷ h₃ in
      if not outcomes.create_subscription
      then fail_service p false false false false (record impl { heap = h₁ })
      else if not outcomes.set_subscription_data
      then fail_service p true false false false (record impl { heap = h₂ })
      else if not outcomes.subscribe
      then fail_service p true true false false (record impl { heap = h₂ })
      else if not outcomes.service_allocate
      then fail_service p true true false false (record impl { heap = h₂ })
      else if not outcomes.allocate
      then fail_service p true true true false (record impl { heap = h₃ })
      else advertise_service p name
          (service_discovery_name name request_type_name response_type_name)
          (record impl { heap = h₄ })

  -- The tests of rmw_create_service: whether they pass, in their order. `found` is whether a type support of
  -- this implementation is found.
  unfoldable pub check_create_service :
      Option (Handle NodeImpl) → Option Text → Bool → Bool → Option (NodeImpl × Text)
  check_create_service none name qos_policies found = none
  check_create_service (some node) none qos_policies found = none
  check_create_service (some node) (some []) qos_policies found = none
  check_create_service (some node) (some (c ∷ name)) qos_policies found =
      if node.ours && qos_policies
      then elim node.data_ [
        | none ↦ none
        | some impl ↦ if found then some (impl, c ∷ name) else none
      ]
      else none

  -- rmw_create_service: the service, and the node's data if it can have changed. The type support is the
  -- namespaces and names of the request and the response.
  unfoldable pub rmw_create_service :
      Outcomes
      → ℕ
      → Option (Handle NodeImpl)
      → Option ((Text × Text) × (Text × Text))
      → Option Text
      → Bool
      → Option Service × Option NodeImpl
  rmw_create_service outcomes p at_node none name qos_policies = (none, none)
  rmw_create_service outcomes p at_node (some (request, response)) name qos_policies =
      elim (check_create_service at_node name qos_policies true) [
        | none ↦ (none, none)
        | some (impl, topic) ↦
            let request_type_name = create_type_name request.0 request.1 in
            let response_type_name = create_type_name response.0 response.1 in
            let (made, impl') =
              create_service outcomes p topic request_type_name response_type_name impl in
            (made, some impl')
      ]

  -- The part of rmw_destroy_service under `if (info)`.
  unfoldable pub destroy_info : ServiceInfo → NodeImpl → NodeImpl
  unfolding destroy_request_subscription
  destroy_info i impl =
      let impl₁ = (remove_discovery_topic publish i.discovery_name impl).1 in
      let h₁ =
        if i.has_subscription
        then destroy_request_subscription i.data_set i.pointer impl₁.heap
        else impl₁.heap in
      let h₂ = release_if i.has_type_supports request_type_support i.pointer h₁ in
      let h₃ = release_if i.has_type_supports response_type_support i.pointer h₂ in
      record impl₁ { heap = release info i.pointer h₃ }

  -- rmw_destroy_service after its tests.
  unfoldable pub destroy_service : Service → NodeImpl → NodeImpl
  unfolding destroy_info
  destroy_service made impl =
      let impl' : NodeImpl = elim made.data_ [ none ↦ impl | some i ↦ destroy_info i impl ] in
      let h : Heap = elim made.name [
        | none ↦ impl'.heap
        | some t ↦ release topic_name made.owner impl'.heap
      ] in
      record impl' { heap = release handle made.owner h }

  unfoldable pub rmw_destroy_service :
      Option (Handle NodeImpl) → Option (Bool × Service) → RmwRet × Option NodeImpl
  rmw_destroy_service none made = (error, none)
  rmw_destroy_service (some node) none = (error, node.data_)
  rmw_destroy_service (some node) (some (ours, made)) =
      if node.ours
      then elim node.data_ [
        | none ↦ (error, none)
        | some impl ↦ if ours then (ok, some (destroy_service made impl)) else (error, some impl)
      ]
      else (error, node.data_)
