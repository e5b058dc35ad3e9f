-- ===== src/Endpoints/Announced.antt =====
-- What a node announces after its endpoints are created, and what another node finds: rmw_publisher.cpp,
-- rmw_subscription.cpp, rmw_client.cpp, rmw_service.cpp and rmw_node.cpp of rmw_dps_cpp/src, with
-- onDiscovery of rmw_dps_cpp/include/rmw_dps_cpp/custom_node_info.hpp at the other end.
use mathlib.Core.List.{foldl, append_assoc, append-nil}
use rmw_dps.Prelude.{
  if◌then◌else◌, false, ap, ◌>>=◌, ℕ, Bool, true, List, [], ◌∷◌, ◌++◌, Option, none, some, length,
  map, All, ◌≡◌, refl, ◌∙◌, arith, >>=-eq-some,
}
use rmw_dps.Text.{Text}
use rmw_dps.Rmw.{is_ok}
use rmw_dps.Cbor.Codec.{Codec, Laws, IsSize}
use rmw_dps.Cbor.Tx.{TxStream}
use rmw_dps.Text.Find.{Lacks}
use rmw_dps.Discovery.Names.{node_topics, publisher_discovery_name}
use rmw_dps.Discovery.Topics.{new_node}
use rmw_dps.Discovery.Topics.RoundTrip.{
  Endpoint, publisher, subscription, client, service, discovery_name, IsValid, add_endpoint,
  payload,
}
use rmw_dps.Discovery.NodeListener.{NodeInfo, discovered}
use rmw_dps.Endpoints.Payload.{NodeImpl, add_discovery_topic}
use rmw_dps.Endpoints.Payload.Encoded.{
  encode_payload, on_discovery_bytes, on_discovery_bytes-encode_payload,
}
use rmw_dps.Endpoints.Publisher
use rmw_dps.Endpoints.Publisher.{
  create_publisher, advertise_publisher, fail_publisher, register_publisher,
}
use rmw_dps.Endpoints.Publisher.Lifecycle.{reaches_payload, create_publisher-payload}
use rmw_dps.Endpoints.Subscription
use rmw_dps.Endpoints.Subscription.{
  create_subscription, advertise_subscription, fail_subscription, register_subscription,
}
use rmw_dps.Endpoints.Client
use rmw_dps.Endpoints.Client.{create_client, advertise_client, fail_client}
use rmw_dps.Endpoints.Service
use rmw_dps.Endpoints.Service.{create_service, advertise_service, fail_service}

-- A call that creates an endpoint: the outcomes of its calls, the new pointer, the name and the types.
pub data Creation : Type 0 where
  a_publisher : Publisher.Outcomes → ℕ → Text → Text → Creation
  a_subscription : Subscription.Outcomes → ℕ → Text → Text → Creation
  a_client : Client.Outcomes → ℕ → Text → Text → Text → Creation
  a_service : Service.Outcomes → ℕ → Text → Text → Text → Creation

abbrev pub endpoint_of : Creation → Endpoint
endpoint_of (a_publisher o p t ty) = publisher t ty
endpoint_of (a_subscription o p t ty) = subscription t ty
endpoint_of (a_client o p s q r) = client s q r
endpoint_of (a_service o p s q r) = service s q r

-- The node after a call that returned something.
abbrev pub if_created {ℓ} : {A : Type ℓ} → Option A × NodeImpl → Option NodeImpl
if_created (none, impl) = none
if_created (some a, impl) = some impl

kept_before :
    (b : Bool) (payload' : List Text) (entry next : Text)
    → (if b then payload' ++ entry ∷ [] else payload') ++ next ∷ []
      ≡ payload' ++ ((if b then entry ∷ [] else []) ++ next ∷ [])
kept_before true payload' entry next = append_assoc payload' (entry ∷ []) (next ∷ [])
kept_before false payload' entry next = refl

module _ (publish : List Text → Bool) where
  -- One call, if it succeeds.
  abbrev pub perform : Creation → NodeImpl → Option NodeImpl
  perform (a_publisher o p t ty) impl = if_created (create_publisher publish o p t ty impl)
  perform (a_subscription o p t ty) impl = if_created (create_subscription publish o p t ty impl)
  perform (a_client o p s q r) impl = if_created (create_client publish o p s q r impl)
  perform (a_service o p s q r) impl = if_created (create_service publish o p s q r impl)

  -- Calls that all succeed.
  abbrev pub perform_all : List Creation → NodeImpl → Option NodeImpl
  perform_all [] impl = some impl
  perform_all (k ∷ ks) impl = perform k impl >>= perform_all ks

  -- The payload has the entry of the endpoint at its end, and is announced.
  abbrev Announces : Endpoint → NodeImpl → NodeImpl → Type 0
  Announces e impl impl' =
      (impl'.discovery_payload ≡ impl.discovery_payload ++ discovery_name e ∷ [])
      × (impl'.announced ≡ impl'.discovery_payload)

  perform-Announces :
      (k : Creation) (impl impl' : NodeImpl)
      → perform k impl ≡ some impl'
      → Announces (endpoint_of k) impl impl'
  unfolding create_publisher advertise_publisher fail_publisher register_publisher
      create_subscription advertise_subscription fail_subscription register_subscription
      create_client advertise_client fail_client create_service advertise_service fail_service
      add_discovery_topic is_ok
  perform-Announces (a_publisher o p t ty) impl impl' h = (ground arith, ground arith)
  perform-Announces (a_subscription o p t ty) impl impl' h = (ground arith, ground arith)
  perform-Announces (a_client o p s q r) impl impl' h = (ground arith, ground arith)
  perform-Announces (a_service o p s q r) impl impl' h = (ground arith, ground arith)

  -- After rmw_create_publisher has failed, the next endpoint that is created announces the payload of
  -- before with its own entry, and in front of it, exactly if all calls before the publication of the
  -- payload had succeeded, the entry of the publisher that was not created.
  pub perform-create_publisher :
      (outcomes : Publisher.Outcomes) (p : ℕ) (name type_name : Text) (k : Creation)
      (impl impl' : NodeImpl)
      → (create_publisher publish outcomes p name type_name impl).0 ≡ none
      → perform k (create_publisher publish outcomes p name type_name impl).1 ≡ some impl'
      → impl'.announced
        ≡ impl.discovery_payload
          ++ ((if reaches_payload outcomes
                then publisher_discovery_name name type_name ∷ []
                else [])
              ++ discovery_name (endpoint_of k) ∷ [])
  perform-create_publisher outcomes p name type_name k impl impl' failed h =
      let after = create_publisher publish outcomes p name type_name impl in
      let (grown, announced) = perform-Announces k after.1 impl' h in
      let left = create_publisher-payload publish outcomes p name type_name impl failed in
      announced
      ∙ grown
      ∙ ap (λ payload'. payload' ++ discovery_name (endpoint_of k) ∷ []) left
      ∙ kept_before (reaches_payload outcomes) impl.discovery_payload
          (publisher_discovery_name name type_name) (discovery_name (endpoint_of k))

  -- After calls that all succeed, the payload has an entry for each endpoint, and is announced.
  perform_all-announced :
      (ks : List Creation) (impl impl' : NodeImpl)
      → impl.announced ≡ impl.discovery_payload
      → perform_all ks impl ≡ some impl'
      → impl'.announced ≡ impl.discovery_payload ++ map discovery_name (map endpoint_of ks)
  perform_all-announced [] impl impl' same h = rw append-nil (cc (h, same))
  perform_all-announced (k ∷ ks) impl impl' same h =
      let (next, e, h') = >>=-eq-some (perform k impl) (perform_all ks) h in
      let (grown, announced) = perform-Announces k impl next e in
      perform_all-announced ks next impl' announced h' ∙ rw (grown, append_assoc) refl

module _ {c : Codec} (l : Laws c) (publish : List Text → Bool) where
  -- Endpoints that are created are discovered. Let a node have what create_node puts into its payload,
  -- announced, with a name without a `=`. After any calls of rmw_create_publisher,
  -- rmw_create_subscription, rmw_create_client and rmw_create_service that all succeed, from the
  -- allocation of the endpoint on, with ROS names, what is announced is encoded if it and its entries
  -- fit a 64-bit size; and onDiscovery of another node, given the bytes, stores a node with exactly
  -- the name, the namespace and the endpoints, in the order of the calls.
  pub on_discovery_bytes-perform_all :
      (ks : List Creation) (name namespace_ uuid : Text) (known : NodeInfo) (impl impl' : NodeImpl)
      → impl.discovery_payload ≡ node_topics name namespace_
      → impl.announced ≡ node_topics name namespace_
      → perform_all publish ks impl ≡ some impl'
      → Lacks b'=' name
      → All IsValid (map endpoint_of ks)
      → IsSize (length (payload name namespace_ (map endpoint_of ks)))
      → All (λ t. IsSize (length t)) (payload name namespace_ (map endpoint_of ks))
      → (s : TxStream) × (encode_payload c impl'.announced ≡ some s)
        × (on_discovery_bytes c uuid s.buffer.written known
            ≡ some (
                discovered uuid true
                  (foldl add_endpoint
                    (record new_node { name = name; namespace_ = namespace_ })
                    (map endpoint_of ks))
                  known))
  on_discovery_bytes-perform_all ks name namespace_ uuid known impl impl' starts announced h plain
        valid size sizes =
      let whole : impl'.announced ≡ payload name namespace_ (map endpoint_of ks) =
        perform_all-announced publish ks impl impl' (rw starts announced) h ∙ rw starts refl in
      rw whole (
        on_discovery_bytes-encode_payload l name namespace_ (map endpoint_of ks) uuid known plain
          valid size sizes)
