-- ===== src/Discovery/NodeListener/Rounds.antt =====
-- The loops of onDiscovery over the endpoints of some topics: what they leave, and what they do.
use rmw_dps.Prelude.{
  ◌≡◌, refl, true, false, List, [], ◌∷◌, arith, map, if◌then◌else◌, All, All-map, Bool-cases, inl,
  inr,
}
use rmw_dps.Text.{Text, text_eq, text_eq→eq}
use rmw_dps.TextMap.{put, lookup-put}
use rmw_dps.Discovery.NodeListener.{MatchedInfo, Infos, infos_at, for_topics}
use rmw_dps.Discovery.NodeListener.Difference.{elem}

pub infos_at-put :
    (t topic : Text) (is : List MatchedInfo) (infos : Infos)
    → infos_at t (put topic is infos) ≡ (if text_eq t topic then is else infos_at t infos)
unfolding infos_at
infos_at-put t topic is infos = ground (arith, lookup-put topic t is infos)

-- A topic that is not in the list keeps its endpoints.
pub for_topics_other :
    (f : MatchedInfo → MatchedInfo) (t : Text) (topics : List Text) (infos : Infos)
    → elem t topics ≡ false
    → infos_at t (for_topics f topics infos) ≡ infos_at t infos
unfolding for_topics elem
for_topics_other f t [] infos h = refl
for_topics_other f t (topic ∷ topics) infos h =
    let is = map f (infos_at topic infos) in
    ground (arith, for_topics_other f t topics (put topic is infos), infos_at-put t topic is infos)

module _ {κ} (P Q : MatchedInfo → Type κ) (f : MatchedInfo → MatchedInfo) (t topic : Text)
    (infos : Infos) where
  -- One round of the loop, at its own topic and at another one.
  round_hit :
      text_eq t topic ≡ true
      → ((i : MatchedInfo) → P i → Q (f i))
      → All P (infos_at t infos)
      → All Q (infos_at t (put topic (map f (infos_at topic infos)) infos))
  round_hit e k h =
      rw (infos_at-put t topic (map f (infos_at topic infos)) infos, e)
        (rw (← text_eq→eq t topic e) (All-map P Q f (infos_at t infos) k h))

  round_miss :
      text_eq t topic ≡ false
      → All P (infos_at t infos)
      → All P (infos_at t (put topic (map f (infos_at topic infos)) infos))
  round_miss e h = rw (infos_at-put t topic (map f (infos_at topic infos)) infos, e) h

module _ {κ} (P : MatchedInfo → Type κ) (f : MatchedInfo → MatchedInfo)
    (k : (i : MatchedInfo) → P i → P (f i)) (t : Text) where
  -- What `f` keeps holds of all endpoints of the topic afterwards.
  pub for_topics_keeps :
      (topics : List Text) (infos : Infos)
      → All P (infos_at t infos)
      → All P (infos_at t (for_topics f topics infos))
  unfolding for_topics
  for_topics_keeps [] infos h = h
  for_topics_keeps (topic ∷ topics) infos h =
      for_topics_keeps topics _ (elim (Bool-cases (text_eq t topic)) [
        | inl e ↦ round_hit P P f t topic infos e k h
        | inr e ↦ round_miss P P f t topic infos e h
      ])

module _ {κ} (P Q : MatchedInfo → Type κ) (f : MatchedInfo → MatchedInfo)
    (k : (i : MatchedInfo) → P i → Q (f i)) (k' : (i : MatchedInfo) → Q i → Q (f i))
    (t : Text) where
  -- What `f` makes true holds of the endpoints of a topic in the list.
  pub for_topics_hit :
      (topics : List Text) (infos : Infos)
      → elem t topics ≡ true
      → All P (infos_at t infos)
      → All Q (infos_at t (for_topics f topics infos))
  unfolding for_topics elem
  for_topics_hit [] infos e h = cc
  for_topics_hit (topic ∷ topics) infos e h = elim (Bool-cases (text_eq t topic)) [
    | inl hit ↦ for_topics_keeps Q f k' t topics _ (round_hit P Q f t topic infos hit k h)
    | inr miss ↦
        for_topics_hit topics _ (ground (arith, miss, e)) (round_miss P P f t topic infos miss h)
  ]
