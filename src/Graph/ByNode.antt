-- ===== src/Graph/ByNode.antt =====
-- The queries by node of NodeListener, against the first node of the name and the namespace.
use rmw_dps.Prelude.{
  ◌≡◌, refl, true, false, ◌&&◌, List, [], ◌∷◌, none, some, arith, inl, inr, ◌++◌, ◌⊎◌, All,
  Bool-cases, ap,
}
use rmw_dps.Text.{Text, text_eq, text_eq→eq, text_eq_refl}
use rmw_dps.TextMap.{TextMap, lookup}
use rmw_dps.Discovery.Topics.{Topic, Node}
use rmw_dps.Graph.{
  types_at, find_node, get_subscriber_names_and_types_by_node,
  get_publisher_names_and_types_by_node, get_service_names_and_types_by_node,
  get_client_names_and_types_by_node,
}
use rmw_dps.Graph.Offers.{offers, lists, offers-add_topics}

module _ (name namespace_ : Text) where
  -- The node has the name and the namespace.
  abbrev pub IsNamed : Node → Type 0
  IsNamed node = (node.name ≡ name) × (node.namespace_ ≡ namespace_)

  abbrev pub NoneNamed : TextMap Node → Type 0
  NoneNamed nodes = All (λ e. ¬ IsNamed e.1) nodes

  -- The node is the first one with the name and the namespace.
  abbrev pub IsFirst : TextMap Node → Node → Type 0
  IsFirst nodes node =
      (before : TextMap Node) × (uuid : Text) × (after : TextMap Node) × (nodes
        ≡ before ++ (uuid, node) ∷ after)
      × NoneNamed before
      × IsNamed node

  not-IsNamed :
      (node : Node)
      → (text_eq node.name name && text_eq node.namespace_ namespace_) ≡ false
      → ¬ IsNamed node
  not-IsNamed node h (e, f) =
      let same_name : text_eq node.name name ≡ true = rw e (text_eq_refl name) in
      let same_namespace : text_eq node.namespace_ namespace_ ≡ true =
        rw f (text_eq_refl namespace_) in
      ground arith

  find_node-IsFirst :
      (nodes : TextMap Node)
      → ((find_node name namespace_ nodes ≡ none) × NoneNamed nodes)
        ⊎ ((node : Node) × (find_node name namespace_ nodes ≡ some node) × IsFirst nodes node)
  unfolding find_node
  find_node-IsFirst [] = inl (refl, tt)
  find_node-IsFirst ((u, n) ∷ nodes) =
      elim (Bool-cases (text_eq n.name name && text_eq n.namespace_ namespace_)) [
        | inl e ↦ inr (
          n,
          rw e refl,
          (
            [],
            u,
            nodes,
            refl,
            tt,
            (
              text_eq→eq n.name name (ground arith),
              text_eq→eq n.namespace_ namespace_ (ground arith),
            ),
          ),
        )
        | inr e ↦ elim (find_node-IsFirst nodes) [
          | inl (f, none_named) ↦ inl (rw e f, (not-IsNamed n e, none_named))
          | inr (node, f, (before, uuid, after, split, none_named, named)) ↦ inr (
            node,
            rw e f,
            (
              (u, n) ∷ before,
              uuid,
              after,
              ap (◌∷◌ (u, n)) split,
              (not-IsNamed n e, none_named),
              named,
            ),
          )
        ]
      ]

module _ (topic type_name name namespace_ : Text) (nodes : TextMap Node) where
  -- What the four queries by node have for the topic and the type, by the lists of subscribers,
  -- publishers, services and clients.
  abbrev pub ByNode : List Topic → List Topic → List Topic → List Topic → Type 0
  ByNode subscribers publishers services clients =
      (offers topic type_name (get_subscriber_names_and_types_by_node name namespace_ nodes)
        ≡ lists topic type_name subscribers)
      × (offers topic type_name (get_publisher_names_and_types_by_node name namespace_ nodes)
          ≡ lists topic type_name publishers)
      × (offers topic type_name (get_service_names_and_types_by_node name namespace_ nodes)
          ≡ lists topic type_name services)
      × (offers topic type_name (get_client_names_and_types_by_node name namespace_ nodes)
          ≡ lists topic type_name clients)

  -- If no discovered node has the name and the namespace, none of the four queries by node has any type
  -- under any topic. If one has, each query has a type under a topic exactly if the first such node
  -- lists an endpoint, of the kind that is asked for, with the topic and the type.
  pub by_node_lem :
      (NoneNamed name namespace_ nodes × ByNode [] [] [] [])
      ⊎ ((node : Node) × IsFirst name namespace_ nodes node
          × ByNode node.subscribers node.publishers node.services node.clients)
  unfolding get_subscriber_names_and_types_by_node get_publisher_names_and_types_by_node
      get_service_names_and_types_by_node get_client_names_and_types_by_node types_at lookup lists
  by_node_lem = elim (find_node-IsFirst name namespace_ nodes) [
    | inl (e, none_named) ↦
        inl (none_named, (ground arith, ground arith, ground arith, ground arith))
    | inr (n, e, first) ↦ inr (
      n,
      first,
      (
        ground (arith, offers-add_topics topic type_name n.subscribers []),
        ground (arith, offers-add_topics topic type_name n.publishers []),
        ground (arith, offers-add_topics topic type_name n.services []),
        ground (arith, offers-add_topics topic type_name n.clients []),
      ),
    )
  ]
