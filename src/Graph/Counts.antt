-- ===== src/Graph/Counts.antt =====
-- The counts that rmw_dps_cpp/src/rmw_count.cpp and rmw_service_server_is_available read, as nodes
-- become known.
use rmw_dps.Prelude.{ℕ, ◌+◌, ◌≡◌, refl, ap, sym, ◌∙◌, true, [], ◌∷◌, none, arith}
use rmw_dps.Text.{Text, text_eq_refl}
use rmw_dps.TextMap.{TextMap, lookup, put, compare_text-eq}
use rmw_dps.Discovery.Topics.{Node}
use rmw_dps.Discovery.NodeListener.{update_nodes}
use rmw_dps.Graph.{count_topics, count_publishers, count_subscribers, count_services}

-- The sum of a number of each node.
total : (Node → ℕ) → TextMap Node → ℕ
total f [] = 0
total f ((_, node) ∷ nodes) = f node + total f nodes

total-put :
    (f : Node → ℕ) (uuid : Text) (node : Node) (nodes : TextMap Node)
    → lookup uuid nodes ≡ none
    → total f (put uuid node nodes) ≡ f node + total f nodes
unfolding total put lookup
total-put f uuid node [] h = refl
total-put f uuid node ((u, n) ∷ nodes) h =
    ground (arith, total-put f uuid node nodes, compare_text-eq uuid u, text_eq_refl uuid)

count_publishers-total :
    (t : Text) (nodes : TextMap Node)
    → count_publishers t nodes ≡ total (λ n. count_topics t n.publishers) nodes
unfolding count_publishers total
count_publishers-total t [] = refl
count_publishers-total t ((u, n) ∷ nodes) =
    ap (◌+◌ (count_topics t n.publishers)) (count_publishers-total t nodes)

count_subscribers-total :
    (t : Text) (nodes : TextMap Node)
    → count_subscribers t nodes ≡ total (λ n. count_topics t n.subscribers) nodes
unfolding count_subscribers total
count_subscribers-total t [] = refl
count_subscribers-total t ((u, n) ∷ nodes) =
    ap (◌+◌ (count_topics t n.subscribers)) (count_subscribers-total t nodes)

count_services-total :
    (t : Text) (nodes : TextMap Node)
    → count_services t nodes ≡ total (λ n. count_topics t n.services) nodes
unfolding count_services total
count_services-total t [] = refl
count_services-total t ((u, n) ∷ nodes) =
    ap (◌+◌ (count_topics t n.services)) (count_services-total t nodes)

-- When onDiscovery stores a node that was not known, the three counts of every topic grow by exactly
-- the endpoints that the node has on it.
pub update_nodes-counts :
    (topic_name uuid : Text) (node : Node) (nodes : TextMap Node)
    → lookup uuid nodes ≡ none
    → (count_publishers topic_name (update_nodes uuid true node nodes).0
        ≡ count_topics topic_name node.publishers + count_publishers topic_name nodes)
      × (count_subscribers topic_name (update_nodes uuid true node nodes).0
          ≡ count_topics topic_name node.subscribers + count_subscribers topic_name nodes)
      × (count_services topic_name (update_nodes uuid true node nodes).0
          ≡ count_topics topic_name node.services + count_services topic_name nodes)
unfolding update_nodes
update_nodes-counts t uuid node nodes h =
    let p = count_publishers-total t in
    let s = count_subscribers-total t in
    let v = count_services-total t in
    rw (h, update_nodes)
      (
        p (put uuid node nodes) ∙ total-put _ uuid node nodes h ∙ ap (◌+◌ _) (sym (p nodes)),
        s (put uuid node nodes) ∙ total-put _ uuid node nodes h ∙ ap (◌+◌ _) (sym (s nodes)),
        v (put uuid node nodes) ∙ total-put _ uuid node nodes h ∙ ap (◌+◌ _) (sym (v nodes)),
      )
