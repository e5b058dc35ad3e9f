-- ===== src/Endpoints/Client.antt =====
-- rmw_create_client and rmw_destroy_client of rmw_dps_cpp/src/rmw_client.cpp. The outcomes of the calls of DPS and
-- of the allocators are parameters. DPS_DestroyPublication runs its callback, which deletes the
-- listener if it was set as the data. Debug messages are left out.
pub mod Lifecycle
use rmw_dps.Prelude.{
  ℕ, Bool, true, false, not, List, [], ◌∷◌, Option, none, some, if◌then◌else◌, ◌&&◌,
}
use rmw_dps.Text.{Text}
use rmw_dps.Rmw.{RmwRet, ok, error, is_ok, Handle}
use rmw_dps.Discovery.Names.{client_discovery_name, create_type_name}
use rmw_dps.Endpoints.Heap.{
  Heap, info, request_type_support, response_type_support, publication, listener, handle,
  topic_name, release, release_if,
}
use rmw_dps.Endpoints.Payload.{NodeImpl, add_discovery_topic, remove_discovery_topic}

-- CustomClientInfo. `data_set` is whether the listener is the data of the publication.
pub record ClientInfo : Type 0 where
  pub pointer : ℕ
  pub discovery_name : Text
  pub has_publication : Bool
  pub data_set : Bool
  pub has_type_supports : Bool

-- rmw_client_t; `owner` is the pointer that its own memory is named by.
pub record Client : Type 0 where
  pub owner : ℕ
  pub data_ : Option ClientInfo
  pub name : Option Text

-- What the calls return, in their order.
pub record Outcomes : Type 0 where
  pub create_publication : Bool
  pub set_publication_data : Bool
  pub init_publication : Bool
  pub client_allocate : Bool
  pub allocate : Bool

-- DPS_DestroyPublication, with its callback.
unfoldable pub destroy_request_publication : Bool → ℕ → Heap → Heap
destroy_request_publication data_set p h = release_if data_set listener p (release publication p h)

-- The code at `fail`, with what is not null by then.
unfoldable pub fail_client : ℕ → Bool → Bool → Bool → Bool → NodeImpl → Option Client × NodeImpl
unfolding destroy_request_publication
fail_client p has_publication data_set has_handle has_name impl =
    let h₁ = release response_type_support p (release request_type_support p impl.heap) in
    let h₂ = if has_publication then destroy_request_publication data_set p h₁ else h₁ in
    let h₃ = release_if has_name topic_name p (release info p h₂) in
    (none, record impl { heap = release_if has_handle handle p h₃ })

module _ (publish : List Text → Bool) where
  -- The end of rmw_create_client: the endpoint is made known.
  unfoldable pub advertise_client : ℕ → Text → Text → NodeImpl → Option Client × NodeImpl
  advertise_client p name entry impl =
      let impl' = (add_discovery_topic publish entry impl).1 in
      if is_ok (add_discovery_topic publish entry impl).0
      then (
        some (record {
          owner = p;
          data_ = some (record {
            pointer = p;
            discovery_name = entry;
            has_publication = true;
            data_set = true;
            has_type_supports = true;
          });
          name = some name;
        }),
        impl',
      )
      else fail_client p true true true true impl'

  -- rmw_create_client from `new CustomClientInfo()` on; `p` is the new pointer.
  unfoldable pub create_client :
      Outcomes → ℕ → Text → Text → Text → NodeImpl → Option Client × NodeImpl
  create_client outcomes p name request_type_name response_type_name impl =
      let h₁ = (response_type_support, p) ∷ (request_type_support, p) ∷ (info, p) ∷ impl.heap in
      let h₂ = (listener, p) ∷ (publication, p) ∷ h₁ in
      let h₃ = (handle, p) ∷ h₂ in
      let h₄ = (topic_name, p) ∷ h₃ in
      if not outcomes.create_publication
      then fail_client p false false false false (record impl { heap = h₁ })
      else if not outcomes.set_publication_data
      then fail_client p true false false false (record impl { heap = h₂ })
      else if not outcomes.init_publication
      then fail_client p true true false false (record impl { heap = h₂ })
      else if not outcomes.client_allocate
      then fail_client p true true false false (record impl { heap = h₂ })
      else if not outcomes.allocate
      then fail_client p true true true false (record impl { heap = h₃ })
      else advertise_client p name (client_discovery_name name request_type_name response_type_name)
          (record impl { heap = h₄ })

  -- The tests of rmw_create_client: whether they pass, in their order. `found` is whether a type support of
  -- this implementation is found.
  unfoldable pub check_create_client :
      Option (Handle NodeImpl) → Option Text → Bool → Bool → Option (NodeImpl × Text)
  check_create_client none name qos_policies found = none
  check_create_client (some node) none qos_policies found = none
  check_create_client (some node) (some []) qos_policies found = none
  check_create_client (some node) (some (c ∷ name)) qos_policies found =
      if node.ours && qos_policies
      then elim node.data_ [
        | none ↦ none
        | some impl ↦ if impl.has_node && found then some (impl, c ∷ name) else none
      ]
      else none

  -- rmw_create_client: the client, and the node's data if it can have changed. The type support is the
  -- namespaces and names of the request and the response.
  unfoldable pub rmw_create_client :
      Outcomes
      → ℕ
      → Option (Handle NodeImpl)
      → Option ((Text × Text) × (Text × Text))
      → Option Text
      → Bool
      → Option Client × Option NodeImpl
  rmw_create_client outcomes p at_node none name qos_policies = (none, none)
  rmw_create_client outcomes p at_node (some (request, response)) name qos_policies =
      elim (check_create_client at_node name qos_policies true) [
        | none ↦ (none, none)
        | some (impl, topic) ↦
            let request_type_name = create_type_name request.0 request.1 in
            let response_type_name = create_type_name response.0 response.1 in
            let (made, impl') =
              create_client outcomes p topic request_type_name response_type_name impl in
            (made, some impl')
      ]

  -- The part of rmw_destroy_client under `if (info)`.
  unfoldable pub destroy_info : ClientInfo → NodeImpl → NodeImpl
  unfolding destroy_request_publication
  destroy_info i impl =
      let impl₁ = (remove_discovery_topic publish i.discovery_name impl).1 in
      let h₁ =
        if i.has_publication
        then destroy_request_publication i.data_set i.pointer impl₁.heap
        else impl₁.heap in
      let h₂ = release_if i.has_type_supports request_type_support i.pointer h₁ in
      let h₃ = release_if i.has_type_supports response_type_support i.pointer h₂ in
      record impl₁ { heap = release info i.pointer h₃ }

  -- rmw_destroy_client after its tests.
  unfoldable pub destroy_client : Client → NodeImpl → NodeImpl
  unfolding destroy_info
  destroy_client made impl =
      let impl' : NodeImpl = elim made.data_ [ none ↦ impl | some i ↦ destroy_info i impl ] in
      let h : Heap = elim made.name [
        | none ↦ impl'.heap
        | some t ↦ release topic_name made.owner impl'.heap
      ] in
      record impl' { heap = release handle made.owner h }

  unfoldable pub rmw_destroy_client :
      Option (Handle NodeImpl) → Option (Bool × Client) → RmwRet × Option NodeImpl
  rmw_destroy_client none made = (error, none)
  rmw_destroy_client (some node) none = (error, node.data_)
  rmw_destroy_client (some node) (some (ours, made)) =
      if node.ours
      then elim node.data_ [
        | none ↦ (error, none)
        | some impl ↦ if ours then (ok, some (destroy_client made impl)) else (error, some impl)
      ]
      else (error, node.data_)
