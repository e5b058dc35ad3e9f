-- ===== src/Discovery/NodeListener/Matched.antt =====
-- The cached sets of matched peers of a node's endpoints, against what the node has discovered.
use rmw_dps.Prelude.{
  ◌≡◌, refl, Bool, true, false, not, ◌&&◌, List, arith, if◌then◌else◌, All, length, Bool-cases, inl,
  inr,
}
use rmw_dps.Text.{Text, text_eq, text_eq→eq, text_eq_refl}
use rmw_dps.TextMap.{contains, lookup-put, lookup-erase}
use rmw_dps.Discovery.Topics.{Topic}
use rmw_dps.Discovery.NodeListener.{
  MatchedInfo, Infos, topics_eq, topic_difference, remove_peer, add_peer, infos_at, for_topics,
  update_counts,
}
use rmw_dps.Discovery.NodeListener.Difference.{topics_eq→eq, has_topic, elem, elem-topic_difference}
use rmw_dps.Discovery.NodeListener.Rounds.{for_topics_other, for_topics_keeps, for_topics_hit}

-- The endpoint has the peer exactly if `b` holds.
abbrev pub Has : Text → Bool → MatchedInfo → Type 0
Has uuid b i = contains uuid i.matched ≡ b

remove_peer_self : (uuid : Text) (i : MatchedInfo) → Has uuid false (remove_peer uuid i)
unfolding remove_peer
remove_peer_self uuid i = ground (arith, lookup-erase uuid uuid i.matched, text_eq_refl uuid)

remove_peer_other :
    (uuid u : Text) (b : Bool) (i : MatchedInfo)
    → text_eq u uuid ≡ false
    → Has u b i
    → Has u b (remove_peer uuid i)
unfolding remove_peer
remove_peer_other uuid u b i e h = ground (arith, lookup-erase uuid u i.matched)

add_peer_self : (uuid : Text) (i : MatchedInfo) → Has uuid true (add_peer uuid i)
unfolding add_peer
add_peer_self uuid i = ground (arith, lookup-put uuid uuid tt i.matched, text_eq_refl uuid)

add_peer_other :
    (uuid u : Text) (b : Bool) (i : MatchedInfo)
    → text_eq u uuid ≡ false
    → Has u b i
    → Has u b (add_peer uuid i)
unfolding add_peer
add_peer_other uuid u b i e h = ground (arith, lookup-put uuid u tt i.matched)

update_counts_same :
    (uuid : Text) (old_topics new_topics : List Topic) (infos : Infos)
    → topics_eq old_topics new_topics ≡ true
    → update_counts uuid old_topics new_topics infos ≡ infos
unfolding update_counts
update_counts_same uuid old_topics new_topics infos e = rw e

-- First the removed topics, then the added ones.
abbrev changed : Text → List Text × List Text → Infos → Infos
changed uuid d infos = for_topics (add_peer uuid) d.0 (for_topics (remove_peer uuid) d.1 infos)

update_counts_differ :
    (uuid : Text) (old_topics new_topics : List Topic) (infos : Infos)
    → topics_eq old_topics new_topics ≡ false
    → update_counts uuid old_topics new_topics infos
      ≡ changed uuid (topic_difference old_topics new_topics) infos
unfolding update_counts
update_counts_differ uuid old_topics new_topics infos e = rw e

changed_self :
    (uuid t : Text) (d : List Text × List Text) (infos : Infos) (before after : Bool)
    → elem t d.0 ≡ (after && not before)
    → elem t d.1 ≡ (before && not after)
    → All (Has uuid before) (infos_at t infos)
    → All (Has uuid after) (infos_at t (changed uuid d infos))
changed_self uuid t d infos true true a r h =
    rw (for_topics_other (add_peer uuid) t d.0 (for_topics (remove_peer uuid) d.1 infos) a)
      (rw (for_topics_other (remove_peer uuid) t d.1 infos r) h)
changed_self uuid t d infos false false a r h =
    rw (for_topics_other (add_peer uuid) t d.0 (for_topics (remove_peer uuid) d.1 infos) a)
      (rw (for_topics_other (remove_peer uuid) t d.1 infos r) h)
changed_self uuid t d infos true false a r h =
    rw (for_topics_other (add_peer uuid) t d.0 (for_topics (remove_peer uuid) d.1 infos) a) (
      for_topics_hit (Has uuid true) (Has uuid false) (remove_peer uuid)
        (λ i _. remove_peer_self uuid i) (λ i _. remove_peer_self uuid i) t d.1 infos r h)
changed_self uuid t d infos false true a r h =
    for_topics_hit (Has uuid false) (Has uuid true) (add_peer uuid) (λ i _. add_peer_self uuid i)
      (λ i _. add_peer_self uuid i) t d.0 (for_topics (remove_peer uuid) d.1 infos) a
      (rw (for_topics_other (remove_peer uuid) t d.1 infos r) h)

-- What both operations on one endpoint keep, update_counts keeps.
update_counts_keeps {κ} :
    (P : MatchedInfo → Type κ) (uuid t : Text) (old_topics new_topics : List Topic) (infos : Infos)
    → ((i : MatchedInfo) → P i → P (remove_peer uuid i))
    → ((i : MatchedInfo) → P i → P (add_peer uuid i))
    → All P (infos_at t infos)
    → All P (infos_at t (update_counts uuid old_topics new_topics infos))
update_counts_keeps P uuid t old_topics new_topics infos k k' h =
    elim (Bool-cases (topics_eq old_topics new_topics)) [
      | inl e ↦ rw (update_counts_same uuid old_topics new_topics infos e) h
      | inr e ↦
          let d = topic_difference old_topics new_topics in
          rw (update_counts_differ uuid old_topics new_topics infos e) (
            for_topics_keeps P (add_peer uuid) k' t d.0 _
              (for_topics_keeps P (remove_peer uuid) k t d.1 infos h))
    ]

-- After update_counts the endpoints of a topic have the peer exactly if the new topics name it.
update_counts_self :
    (uuid t : Text) (old_topics new_topics : List Topic) (infos : Infos)
    → All (Has uuid (has_topic t old_topics)) (infos_at t infos)
    → All
        (Has uuid (has_topic t new_topics))
        (infos_at t (update_counts uuid old_topics new_topics infos))
update_counts_self uuid t old_topics new_topics infos h =
    elim (Bool-cases (topics_eq old_topics new_topics)) [
      | inl e ↦
          rw (update_counts_same uuid old_topics new_topics infos e)
            (rw (← topics_eq→eq old_topics new_topics e) h)
      | inr e ↦
          let (a, r) = elem-topic_difference t old_topics new_topics in
          rw (update_counts_differ uuid old_topics new_topics infos e)
            (changed_self uuid t (topic_difference old_topics new_topics) infos _ _ a r h)
    ]

-- Every endpoint of every topic has exactly the peers that `peer` says, and its count is the size of
-- its set.
pub record IsMatched (peer : Text → Text → Bool) (infos : Infos) : Type 0 where
  pub exact : (uuid t : Text) → All (Has uuid (peer uuid t)) (infos_at t infos)
  pub counted : (t : Text) → All (λ i. i.matched_count ≡ length i.matched) (infos_at t infos)

pub update_counts-IsMatched :
    (peer peer' : Text → Text → Bool) (uuid : Text) (old_topics new_topics : List Topic)
    (infos : Infos)
    → ((t : Text) → peer uuid t ≡ has_topic t old_topics)
    → ((u t : Text) → peer' u t ≡ (if text_eq u uuid then has_topic t new_topics else peer u t))
    → IsMatched peer infos
    → IsMatched peer' (update_counts uuid old_topics new_topics infos)
update_counts-IsMatched peer peer' uuid old_topics new_topics infos o n m = record {
  exact = λ u t. elim (Bool-cases (text_eq u uuid)) [
    | inl e ↦
        rw (n u t, e)
          (rw (text_eq→eq u uuid e)
            (update_counts_self uuid t old_topics new_topics infos (rw (← o t) (m.exact uuid t))))
    | inr e ↦
        rw (n u t, e)
          (update_counts_keeps (Has u (peer u t)) uuid t old_topics new_topics infos
            (λ i. remove_peer_other uuid u (peer u t) i e)
            (λ i. add_peer_other uuid u (peer u t) i e) (m.exact u t))
  ];
  counted = λ t.
      update_counts_keeps (λ i. i.matched_count ≡ length i.matched) uuid t old_topics new_topics
        infos (λ i _. unfold remove_peer in refl) (λ i _. unfold add_peer in refl) (m.counted t);
}
