-- ===== src/Endpoints/Payload/Entries.antt =====
-- Which entries the discovery payload of rmw_dps_cpp/src/rmw_node.cpp has, and how often.
use rmw_dps.Prelude.{
  ℕ, suc, ◌+◌, ◌-◌, ◌≡◌, refl, Bool, false, List, [], ◌∷◌, ◌++◌, arith, if◌then◌else◌,
}
use rmw_dps.Text.{Text, text_eq, text_eq→eq, text_eq_refl}
use rmw_dps.Endpoints.Payload.{
  NodeImpl, holds, erase_first, add_discovery_topic, remove_discovery_topic,
}

-- How often an entry is in a payload.
unfoldable pub occurrences : Text → List Text → ℕ
occurrences t [] = 0
occurrences t (s ∷ payload) =
    let rest = occurrences t payload in if text_eq s t then suc rest else rest

pub occurrences-append :
    (t : Text) (a b : List Text) → occurrences t (a ++ b) ≡ occurrences t a + occurrences t b
unfolding occurrences
occurrences-append t [] b = omega arith
occurrences-append t (s ∷ a) b = ground (arith, occurrences-append t a b)

holds-occurrences :
    (t : Text) (payload : List Text) → holds t payload ≡ false → occurrences t payload ≡ 0
unfolding occurrences holds
holds-occurrences t [] h = refl
holds-occurrences t (s ∷ payload) h = ground (arith, holds-occurrences t payload)

-- One entry fewer, if there is one.
pub occurrences-erase_first :
    (t u : Text) (payload : List Text)
    → occurrences u (erase_first t payload)
      ≡ (if text_eq t u then occurrences u payload - 1 else occurrences u payload)
unfolding occurrences erase_first
occurrences-erase_first t u [] = ground arith
occurrences-erase_first t u (s ∷ payload) = ground (
  arith,
  occurrences-erase_first t u payload,
  text_eq→eq s t,
  text_eq→eq t u,
  text_eq_refl s,
  text_eq_refl t,
)

occurrences-one : (t u : Text) → occurrences u (t ∷ []) ≡ (if text_eq t u then 1 else 0)
unfolding occurrences
occurrences-one t u = refl

module _ (publish : List Text → Bool) (t u : Text) (impl : NodeImpl) where
  pub occurrences-add_discovery_topic :
      occurrences u (add_discovery_topic publish t impl).1.discovery_payload
      ≡ occurrences u impl.discovery_payload + (if text_eq t u then 1 else 0)
  unfolding add_discovery_topic
  occurrences-add_discovery_topic =
      ground (arith, occurrences-append u impl.discovery_payload (t ∷ []), occurrences-one t u)

  pub occurrences-remove_discovery_topic :
      occurrences u (remove_discovery_topic publish t impl).1.discovery_payload ≡ (
        if text_eq t u
        then occurrences u impl.discovery_payload - 1
        else occurrences u impl.discovery_payload)
  unfolding remove_discovery_topic
  occurrences-remove_discovery_topic = ground (
    arith,
    occurrences-erase_first t u impl.discovery_payload,
    holds-occurrences t impl.discovery_payload,
    text_eq→eq t u,
  )
