-- ===== src/Endpoints/Publisher/Lifecycle.antt =====
-- What the creation and the destruction of a publisher in rmw_dps_cpp/src/rmw_publisher.cpp leave.
use rmw_dps.Prelude.{
  ◌&&◌, if◌then◌else◌, ℕ, ◌≡◌, refl, Bool, true, false, List, [], ◌∷◌, ◌++◌, none, arith,
}
use rmw_dps.Text.{Text}
use rmw_dps.Discovery.Names.{publisher_discovery_name}
use rmw_dps.Endpoints.Heap.{release, Heap, info, type_support, publication, handle, topic_name}
use rmw_dps.Endpoints.Payload.{NodeImpl, add_discovery_topic}
use rmw_dps.Rmw.{is_ok}
use rmw_dps.Endpoints.Publisher.{Outcomes, fail_publisher, advertise_publisher, create_publisher}

fail_publisher_lem :
    (p : ℕ) (impl : NodeImpl) (heap : Heap)
    → ((fail_publisher p false false false
          (record impl { heap = (type_support, p) ∷ (info, p) ∷ heap })).1.heap
        ≡ heap)
      × ((fail_publisher p true false false
            (record impl { heap = (publication, p) ∷ (type_support, p) ∷ (info, p) ∷ heap })).1.heap
          ≡ heap)
      × ((fail_publisher p true true false (record impl {
        heap = (handle, p) ∷ (publication, p) ∷ (type_support, p) ∷ (info, p) ∷ heap;
      })).1.heap
          ≡ heap)
unfolding fail_publisher release
fail_publisher_lem p impl heap = (ground arith, ground arith, ground arith)

-- The heap with everything that belongs to a publisher.
abbrev pub publisher_heap : ℕ → Heap → Heap
publisher_heap p heap =
    (topic_name, p) ∷ (handle, p) ∷ (publication, p) ∷ (type_support, p) ∷ (info, p) ∷ heap

pub add_discovery_topic_lem :
    (publish : List Text → Bool) (t : Text) (impl : NodeImpl)
    → ((add_discovery_topic publish t impl).1.heap ≡ impl.heap)
      × ((add_discovery_topic publish t impl).1.discovery ≡ impl.discovery)
unfolding add_discovery_topic
add_discovery_topic_lem publish t impl = (ground arith, ground arith)

fail_publisher_all :
    (p : ℕ) (impl : NodeImpl) (heap : Heap)
    → impl.heap ≡ publisher_heap p heap
    → ((fail_publisher p true true true impl).1.heap ≡ heap)
      × ((fail_publisher p true true true impl).1.discovery ≡ impl.discovery)
unfolding fail_publisher release
fail_publisher_all p impl heap h = (ground (arith, h), refl)

advertise_publisher_fails :
    (publish : List Text → Bool) (p : ℕ) (name entry : Text) (impl : NodeImpl) (heap : Heap)
    → impl.heap ≡ publisher_heap p heap
    → (advertise_publisher publish p name entry impl).0 ≡ none
    → ((advertise_publisher publish p name entry impl).1.heap ≡ heap)
      × ((advertise_publisher publish p name entry impl).1.discovery ≡ impl.discovery)
unfolding advertise_publisher
advertise_publisher_fails publish p name entry impl heap h e = (
  ground (
    arith,
    add_discovery_topic_lem publish entry impl,
    fail_publisher_all p (add_discovery_topic publish entry impl).1 heap,
  ),
  ground (
    arith,
    add_discovery_topic_lem publish entry impl,
    fail_publisher_all p (add_discovery_topic publish entry impl).1 heap,
  ),
)

fail_publisher-discovery :
    (p : ℕ) (a b c : Bool) (impl : NodeImpl)
    → (fail_publisher p a b c impl).1.discovery ≡ impl.discovery
unfolding fail_publisher
fail_publisher-discovery p a b c impl = refl

-- The calls before the publication of the payload all succeed.
abbrev pub all_succeed : Outcomes
all_succeed = record {
  create_publication = true;
  init_publication = true;
  publisher_allocate = true;
  allocate = true;
}

-- When rmw_create_publisher fails after its tests, wherever it fails, everything that it allocated is
-- freed, and the endpoints and the discovered nodes of the node are as before.
pub create_publisher_fails :
    (publish : List Text → Bool) (outcomes : Outcomes) (p : ℕ) (name type_name : Text)
    (impl : NodeImpl)
    → (create_publisher publish outcomes p name type_name impl).0 ≡ none
    → ((create_publisher publish outcomes p name type_name impl).1.heap ≡ impl.heap)
      × ((create_publisher publish outcomes p name type_name impl).1.discovery ≡ impl.discovery)
unfolding create_publisher
create_publisher_fails publish outcomes p name type_name impl h =
    let frees = fail_publisher_lem p impl impl.heap in
    let rest =
      advertise_publisher_fails publish p name (publisher_discovery_name name type_name)
        (record impl { heap = publisher_heap p impl.heap }) impl.heap refl in
    (
      ground (arith, frees, rest),
      ground (
        arith,
        rest,
        fail_publisher-discovery p false false false
            (record impl { heap = (type_support, p) ∷ (info, p) ∷ impl.heap }),
        fail_publisher-discovery p true false false
            (record impl { heap = (publication, p) ∷ (type_support, p) ∷ (info, p) ∷ impl.heap }),
        fail_publisher-discovery p true true false (record impl {
          heap = (handle, p) ∷ (publication, p) ∷ (type_support, p) ∷ (info, p) ∷ impl.heap;
        }),
      ),
    )

-- Every call before the publication of the payload succeeds.
abbrev pub reaches_payload : Outcomes → Bool
reaches_payload outcomes =
    outcomes.create_publication
    && (outcomes.init_publication && (outcomes.publisher_allocate && outcomes.allocate))

-- A publisher that is not created: the entry is in the payload exactly if the calls before the
-- publication of the payload succeeded.
pub create_publisher-payload :
    (publish : List Text → Bool) (outcomes : Outcomes) (p : ℕ) (name type_name : Text)
    (impl : NodeImpl)
    → (create_publisher publish outcomes p name type_name impl).0 ≡ none
    → (create_publisher publish outcomes p name type_name impl).1.discovery_payload ≡ (
        if reaches_payload outcomes
        then impl.discovery_payload ++ publisher_discovery_name name type_name ∷ []
        else impl.discovery_payload)
unfolding create_publisher advertise_publisher add_discovery_topic fail_publisher is_ok
create_publisher-payload publish outcomes p name type_name impl h = ground arith
