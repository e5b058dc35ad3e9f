-- ===== src/Endpoints/Heap.antt =====
-- What the create and destroy functions of rmw_dps_cpp/src/rmw_publisher.cpp and
-- rmw_dps_cpp/src/rmw_subscription.cpp allocate and free: one entry for each live object, named by its
-- kind and by the pointer of the endpoint that it belongs to.
use rmw_dps.Prelude.{ℕ, Bool, ◌&&◌, List, [], ◌∷◌, ◌==◌, if◌then◌else◌}

pub data Kind : Type 0 where
  info type_support publication subscription listener handle topic_name request_type_support
        response_type_support :
      Kind

unfoldable pub tag : Kind → ℕ
tag info = 0
tag type_support = 1
tag publication = 2
tag subscription = 3
tag listener = 4
tag handle = 5
tag topic_name = 6
tag request_type_support = 7
tag response_type_support = 8

abbrev pub Heap : Type 0
Heap = List (Kind × ℕ)

unfoldable pub release : Kind → ℕ → Heap → Heap
unfolding tag
release k p [] = []
release k p ((j, q) ∷ h) =
    let rest = release k p h in if tag k == tag j && p == q then h else (j, q) ∷ rest

abbrev pub release_if : Bool → Kind → ℕ → Heap → Heap
release_if b k p h = if b then release k p h else h
