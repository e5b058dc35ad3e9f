-- ===== src/Endpoints/Publisher.antt =====
-- rmw_create_publisher, rmw_destroy_publisher and rmw_publisher_count_matched_subscriptions of
-- rmw_dps_cpp/src/rmw_publisher.cpp. The outcomes of the calls of DPS and of the allocators are
-- parameters. Debug messages and the quality of service profile are left out.
pub mod Lifecycle
pub mod Undo
use rmw_dps.Prelude.{
  ℕ, Bool, true, false, not, List, [], ◌∷◌, Option, none, some, if◌then◌else◌, ◌==◌,
}
use rmw_dps.Text.{Text}
use rmw_dps.Rmw.{RmwRet, ok, error, invalid_argument, Handle}
use rmw_dps.Discovery.Names.{publisher_discovery_name, create_type_name}
use rmw_dps.Discovery.NodeListener.{MatchedInfo, Infos, insert_info, erase_info, infos_at}
use rmw_dps.Endpoints.Heap.{
  Heap, info, type_support, publication, handle, topic_name, release, release_if,
}
use rmw_dps.Endpoints.Payload.{NodeImpl, add_discovery_topic, remove_discovery_topic}
use rmw_dps.Rmw.{is_ok}

-- CustomPublisherInfo, as far as it is not in publishers_: it is named by `pointer`.
pub record PublisherInfo : Type 0 where
  pub pointer : ℕ
  pub discovery_name : Text
  pub has_publication : Bool
  pub has_type_support : Bool

-- rmw_publisher_t; `owner` is the pointer that its own memory is named by.
pub record Publisher : Type 0 where
  pub owner : ℕ
  pub data_ : Option PublisherInfo
  pub name : Option Text

-- What DPS_CreatePublication, DPS_InitPublication, rmw_publisher_allocate and rmw_allocate return.
pub record Outcomes : Type 0 where
  pub create_publication : Bool
  pub init_publication : Bool
  pub publisher_allocate : Bool
  pub allocate : Bool

-- The code at `fail`, with what is not null by then.
unfoldable pub fail_publisher : ℕ → Bool → Bool → Bool → NodeImpl → Option Publisher × NodeImpl
fail_publisher p has_publication has_handle has_name impl =
    let h₁ = release_if has_publication publication p (release type_support p impl.heap) in
    let h₂ = release_if has_name topic_name p (release info p h₁) in
    (none, record impl { heap = release_if has_handle handle p h₂ })

-- { std::lock_guard … impl->publishers_[topic_name].insert(info); }
unfoldable pub register_publisher : Text → ℕ → NodeImpl → NodeImpl
register_publisher name p impl = record impl {
  discovery = record impl.discovery { publishers = insert_info name p impl.discovery.publishers };
}

unfoldable pub unregister_publisher : Text → ℕ → NodeImpl → NodeImpl
unregister_publisher name p impl = record impl {
  discovery = record impl.discovery { publishers = erase_info name p impl.discovery.publishers };
}

module _ (publish : List Text → Bool) where
  -- The end of rmw_create_publisher: the endpoint is made known, and registered.
  unfoldable pub advertise_publisher : ℕ → Text → Text → NodeImpl → Option Publisher × NodeImpl
  advertise_publisher p name entry impl =
      let impl' = (add_discovery_topic publish entry impl).1 in
      if is_ok (add_discovery_topic publish entry impl).0
      then (
        some (record {
          owner = p;
          data_ = some (record {
            pointer = p;
            discovery_name = entry;
            has_publication = true;
            has_type_support = true;
          });
          name = some name;
        }),
        register_publisher name p impl',
      )
      else fail_publisher p true true true impl'

  -- rmw_create_publisher from `new CustomPublisherInfo()` on; `p` is the new pointer.
  unfoldable pub create_publisher :
      Outcomes → ℕ → Text → Text → NodeImpl → Option Publisher × NodeImpl
  create_publisher outcomes p name type_name impl =
      let h₁ = (type_support, p) ∷ (info, p) ∷ impl.heap in
      let h₂ = (publication, p) ∷ h₁ in
      let h₃ = (handle, p) ∷ h₂ in
      let h₄ = (topic_name, p) ∷ h₃ in
      if not outcomes.create_publication
      then fail_publisher p false false false (record impl { heap = h₁ })
      else if not outcomes.init_publication
      then fail_publisher p true false false (record impl { heap = h₂ })
      else if not outcomes.publisher_allocate
      then fail_publisher p true false false (record impl { heap = h₂ })
      else if not outcomes.allocate
      then fail_publisher p true true false (record impl { heap = h₃ })
      else advertise_publisher p name (publisher_discovery_name name type_name)
          (record impl { heap = h₄ })

  -- The tests of rmw_create_publisher: whether they pass, in their order. `found` is whether a type
  -- support of this implementation is.
  unfoldable pub check_create_publisher :
      Option (Handle NodeImpl) → Option Text → Bool → Bool → Option (NodeImpl × Text)
  check_create_publisher none name qos_policies found = none
  check_create_publisher (some node) none qos_policies found = none
  check_create_publisher (some node) (some []) qos_policies found = none
  check_create_publisher (some node) (some (c ∷ name)) qos_policies found =
      if node.ours
      then if qos_policies
        then elim node.data_ [
          | none ↦ none
          | some impl ↦
              if impl.has_node then if found then some (impl, c ∷ name) else none else none
        ]
        else none
      else none

  -- rmw_create_publisher: the publisher, and the node's data if it can have changed.
  unfoldable pub rmw_create_publisher :
      Outcomes
      → ℕ
      → Option (Handle NodeImpl)
      → Option (Text × Text)
      → Option Text
      → Bool
      → Option Publisher × Option NodeImpl
  rmw_create_publisher outcomes p at_node none name qos_policies = (none, none)
  rmw_create_publisher outcomes p at_node (some (message_namespace, message_name)) name
        qos_policies =
      elim (check_create_publisher at_node name qos_policies true) [
        | none ↦ (none, none)
        | some (impl, topic) ↦
            let type_name = create_type_name message_namespace message_name in
            let (publisher, impl') = create_publisher outcomes p topic type_name impl in
            (publisher, some impl')
      ]

  -- The part of rmw_destroy_publisher under `if (info)`.
  unfoldable pub destroy_info : Option Text → PublisherInfo → NodeImpl → NodeImpl
  destroy_info name i impl =
      let impl₁ : NodeImpl = elim name [
        | none ↦ impl
        | some t ↦ unregister_publisher t i.pointer impl
      ] in
      let impl₂ = (remove_discovery_topic publish i.discovery_name impl₁).1 in
      let h = release_if i.has_publication publication i.pointer impl₂.heap in
      let h' = release_if i.has_type_support type_support i.pointer h in
      record impl₂ { heap = release info i.pointer h' }

  -- rmw_destroy_publisher after its tests.
  unfoldable pub destroy_publisher : Publisher → NodeImpl → NodeImpl
  unfolding destroy_info
  destroy_publisher publisher impl =
      let impl' : NodeImpl = elim publisher.data_ [
        | none ↦ impl
        | some i ↦ destroy_info publisher.name i impl
      ] in
      let h : Heap = elim publisher.name [
        | none ↦ impl'.heap
        | some t ↦ release topic_name publisher.owner impl'.heap
      ] in
      record impl' { heap = release handle publisher.owner h }

  unfoldable pub rmw_destroy_publisher :
      Option (Handle NodeImpl) → Option (Bool × Publisher) → RmwRet × Option NodeImpl
  rmw_destroy_publisher none publisher = (error, none)
  rmw_destroy_publisher (some node) none = (error, node.data_)
  rmw_destroy_publisher (some node) (some (ours, publisher)) =
      if node.ours
      then elim node.data_ [
        | none ↦ (error, none)
        | some impl ↦
            if ours then (ok, some (destroy_publisher publisher impl)) else (error, some impl)
      ]
      else (error, node.data_)

-- subscriptions_matched_count_ of the info that `p` points to.
unfoldable pub matched_count_at : ℕ → List MatchedInfo → Option ℕ
matched_count_at p [] = none
matched_count_at p (i ∷ is) =
    let rest = matched_count_at p is in if i.pointer == p then some i.matched_count else rest

-- rmw_publisher_count_matched_subscriptions: the return code and `*subscription_count`, if written.
unfoldable pub rmw_publisher_count_matched_subscriptions :
    Option Publisher → Bool → NodeImpl → RmwRet × Option ℕ
unfolding matched_count_at
rmw_publisher_count_matched_subscriptions none count impl = (invalid_argument, none)
rmw_publisher_count_matched_subscriptions (some publisher) false impl = (invalid_argument, none)
rmw_publisher_count_matched_subscriptions (some publisher) true impl = elim publisher.data_ [
  | none ↦ (ok, none)
  | some i ↦ elim publisher.name [
    | none ↦ (ok, none)
    | some name ↦ (ok, matched_count_at i.pointer (infos_at name impl.discovery.publishers))
  ]
]
