-- ===== src/Discovery/NodeListener/Endpoints.antt =====
-- The creation and the destruction of publishers and subscriptions, against the cached sets of matched
-- peers: rmw_dps_cpp/src/rmw_publisher.cpp and rmw_dps_cpp/src/rmw_subscription.cpp.
use mathlib.Core.Logic.{◌↔◌}
use rmw_dps.Prelude.{
  ◌&&◌, if◌then◌else◌, arith, ℕ, ◌≡◌, refl, Bool, true, false, List, [], ◌∷◌, ◌==◌, All, length,
  Bool-cases, inl, inr,
}
use rmw_dps.Text.{Text, text_eq, text_eq→eq, text_eq_refl}
use rmw_dps.TextMap.{put, lookup}
use rmw_dps.Discovery.NodeListener.{
  MatchedInfo, Infos, new_info, insert_info, erase_info, without_pointer, infos_at,
}
use rmw_dps.Discovery.NodeListener.Rounds.{infos_at-put}
use rmw_dps.Discovery.NodeListener.Matched.{IsMatched, Has}

-- A statement about all endpoints of each topic survives a write to the endpoints of one topic.
put_keeps {κ} :
    (P : MatchedInfo → Type κ) (t topic : Text) (is : List MatchedInfo) (infos : Infos)
    → (t ≡ topic → All P is)
    → All P (infos_at t infos)
    → All P (infos_at t (put topic is infos))
put_keeps P t topic is infos k h = elim (Bool-cases (text_eq t topic)) [
  | inl e ↦ rw (infos_at-put t topic is infos, e) (k (text_eq→eq t topic e))
  | inr e ↦ rw (infos_at-put t topic is infos, e) h
]

All-without {κ} :
    (P : MatchedInfo → Type κ) (pointer : ℕ) (is : List MatchedInfo)
    → All P is
    → All P (without_pointer pointer is)
unfolding without_pointer
All-without P pointer [] h = tt
All-without P pointer (i ∷ is) h = elim (Bool-cases (i.pointer == pointer)) [
  | inl e ↦ rw e (All-without P pointer is h.1)
  | inr e ↦ rw e (h.0, All-without P pointer is h.1)
]

-- The endpoints with a pointer.
unfoldable pub with_pointer : ℕ → List MatchedInfo → List MatchedInfo
with_pointer q [] = []
with_pointer q (i ∷ is) = let rest = with_pointer q is in if i.pointer == q then i ∷ rest else rest

with_pointer-without_pointer :
    (p q : ℕ) (is : List MatchedInfo)
    → with_pointer q (without_pointer p is) ≡ (if p == q then [] else with_pointer q is)
unfolding with_pointer without_pointer
with_pointer-without_pointer p q [] = ground arith
with_pointer-without_pointer p q (i ∷ is) = ground (arith, with_pointer-without_pointer p q is)

module _ (peer : Text → Text → Bool) (topic : Text) (pointer : ℕ) (infos : Infos) where
  -- Registering a new endpoint keeps the cached sets exact if no known node is a peer of its topic.
  pub insert_info-IsMatched :
      ((uuid : Text) → peer uuid topic ≡ false)
      → IsMatched peer infos
      → IsMatched peer (insert_info topic pointer infos)
  unfolding insert_info
  insert_info-IsMatched alone m = record {
    exact = λ uuid t.
        put_keeps (Has uuid (peer uuid t)) t topic (new_info pointer ∷ infos_at topic infos) infos
          (λ e. rw e (unfold lookup in cc (alone uuid), rw (← e) (m.exact uuid t)))
          (m.exact uuid t);
    counted = λ t.
        put_keeps (λ i. i.matched_count ≡ length i.matched) t topic
          (new_info pointer ∷ infos_at topic infos) infos (λ e. (refl, rw (← e) (m.counted t)))
          (m.counted t);
  }

  -- After a new endpoint is registered for a topic that some known node is a peer of, the cached sets
  -- are not exact.
  insert_info-IsMatched_fails :
      (uuid : Text) → peer uuid topic ≡ true → ¬ IsMatched peer (insert_info topic pointer infos)
  unfolding insert_info
  insert_info-IsMatched_fails uuid known m =
      let all =
        rw
          (
            infos_at-put topic topic (new_info pointer ∷ infos_at topic infos) infos,
            text_eq_refl topic,
          )
          at (m.exact uuid topic) in
      unfold lookup in cc (all.0, known)

  -- If the cached sets are exact, they are exact after a new endpoint is registered for a topic exactly
  -- if no known node is a peer of the topic.
  pub insert_info-IsMatched_iff :
      IsMatched peer infos
      → (IsMatched peer (insert_info topic pointer infos)
          ↔ ((uuid : Text) → peer uuid topic ≡ false))
  insert_info-IsMatched_iff m =
      let peerless : IsMatched peer (insert_info topic pointer infos)
          → (uuid : Text) → peer uuid topic ≡ false =
        λ new uuid. elim (Bool-cases (peer uuid topic)) [
          | inl e ↦ absurd (insert_info-IsMatched_fails uuid e new)
          | inr e ↦ e
        ] in
      (peerless, λ alone. insert_info-IsMatched alone m)

  erase_keeps : IsMatched peer infos → IsMatched peer (erase_info topic pointer infos)
  unfolding erase_info
  erase_keeps m = record {
    exact = λ uuid t.
        put_keeps (Has uuid (peer uuid t)) t topic _ infos
          (λ e. All-without _ pointer (infos_at topic infos) (rw (← e) (m.exact uuid t)))
          (m.exact uuid t);
    counted = λ t.
        put_keeps (λ i. i.matched_count ≡ length i.matched) t topic _ infos
          (λ e. All-without _ pointer (infos_at topic infos) (rw (← e) (m.counted t)))
          (m.counted t);
  }

  -- Removing an endpoint of a topic keeps the cached sets exact, and removes the endpoints of that topic
  -- with the pointer and nothing else: for every topic and every pointer, the endpoints are as before,
  -- but those of the topic with the pointer are gone.
  pub erase_info-IsMatched :
      (t : Text) (q : ℕ)
      → IsMatched peer infos
      → IsMatched peer (erase_info topic pointer infos)
        × (with_pointer q (infos_at t (erase_info topic pointer infos))
            ≡ (if text_eq t topic && pointer == q then [] else with_pointer q (infos_at t infos)))
  unfolding erase_info
  erase_info-IsMatched t q m = (
    erase_keeps m,
    ground (
      arith,
      infos_at-put t topic (without_pointer pointer (infos_at topic infos)) infos,
      text_eq→eq t topic,
      with_pointer-without_pointer pointer q (infos_at topic infos),
    ),
  )
