-- ===== src/Discovery/Topics/Total.antt =====
-- The slices of process_topic_info and of the loop of onDiscovery, within and out of their texts.
use Prim.Native.Nat.{◌^◌}
use rmw_dps.Prelude.{
  ◌>>=◌, ℕ, ◌+◌, ◌≤◌, ◌<◌, ◌≡◌, refl, Bool, true, false, List, [], ◌∷◌, Option, none, some, arith,
  length, take, drop, Option-cases, inl, inr, All,
}
use rmw_dps.Text.{Text, find, substr, substr_from}
use rmw_dps.Text.Find.{find_bounds}
use rmw_dps.Discovery.Names.{
  types_separator, dps_namespace_prefix, dps_name_prefix, dps_subscriber_prefix,
  dps_publisher_prefix, dps_service_prefix, dps_client_prefix,
}
use rmw_dps.Discovery.Topics.{
  Topic, Node, topic_at, process_topic_info, process_clients, process_services, process_publishers,
  process_subscribers, process_name, process_topic, process_topics, sub_size,
}
use rmw_dps.Discovery.Topics.Split.{split_commas, types_of-split}

-- A text that fits a 64-bit size_t.
abbrev pub Fits : Text → Type 0
Fits s = length s < 2 ^ 64

-- With the separator, the topic runs up to it and the types follow it.
pub topic_at-separated :
    (s : Text) (pos end_pos : ℕ)
    → Fits s
    → pos ≤ length s
    → find types_separator s ≡ some end_pos
    → topic_at s pos
      ≡ some (record {
        topic = take (sub_size end_pos pos) (drop pos s);
        types = split_commas (drop (end_pos + 7) s);
      })
unfolding topic_at substr
topic_at-separated s pos end_pos w h e =
    ground (arith, find_bounds types_separator s end_pos e, types_of-split s (end_pos + 7) w)

-- Without it, the whole rest is the topic, and is read once more for the types.
pub topic_at-bare :
    (s : Text) (pos : ℕ)
    → Fits s
    → pos ≤ length s
    → find types_separator s ≡ none
    → topic_at s pos ≡ some (record { topic = drop pos s; types = split_commas (drop pos s) })
unfolding topic_at substr_from
topic_at-bare s pos w h e = ground (arith, types_of-split s pos w)

-- The call returns a value.
abbrev pub Total {ℓ} : {A : Type ℓ} → Option A → Type ℓ
Total {A = A} o = (a : A) × (o ≡ some a)

>>=-Total {ℓ κ} :
    {A : Type ℓ} {B : Type κ} (m : Option A) (f : A → Option B)
    → Total m
    → ((a : A) → Total (f a))
    → Total (m >>= f)
>>=-Total none f (a, e) k = (absurd (cc), cc)
>>=-Total (some a) f t k = k a

found-Total {ℓ} :
    {A : Type ℓ} (found : Bool) (yes' : A) (no' : Option A)
    → Total no'
    → Total (elim found [ true ↦ some yes' | false ↦ no' ])
found-Total true yes' no' t = (yes', refl)
found-Total false yes' no' t = t

topic_at-Total : (s : Text) (pos : ℕ) → Fits s → pos ≤ length s → Total (topic_at s pos)
topic_at-Total s pos w h = elim (Option-cases (find types_separator s)) [
  | inl e ↦ (_, topic_at-bare s pos w h e)
  | inr (i, e) ↦ (_, topic_at-separated s pos i w h e)
]

substr_from-Total :
    (s p : Text) (pos : ℕ) → find p s ≡ some pos → Total (substr_from s (pos + length p))
unfolding substr_from
substr_from-Total s p pos e = (drop (pos + length p) s, ground (arith, find_bounds p s pos e))

-- Reading one entry throws nothing, whatever the prefix that is looked for.
pub process_topic_info-Total :
    (s prefix : Text) (topics : List Topic) → Fits s → Total (process_topic_info s prefix topics)
unfolding process_topic_info
process_topic_info-Total s prefix topics w = elim (Option-cases (find prefix s)) [
  | inl e ↦ rw (e, process_topic_info) (_, refl)
  | inr (i, e) ↦
      rw (e, process_topic_info)
        (>>=-Total _ _ (topic_at-Total s (i + length prefix) w (find_bounds prefix s i e))
          λ t. (_, refl))
]

module _ (s : Text) (w : Fits s) where
  process_clients-Total : (node : Node) → Total (process_clients s node)
  unfolding process_clients
  process_clients-Total node =
      >>=-Total _ _ (process_topic_info-Total s dps_client_prefix node.clients w) λ r. (_, refl)

  process_services-Total : (node : Node) → Total (process_services s node)
  unfolding process_services
  process_services-Total node =
      >>=-Total _ _ (process_topic_info-Total s dps_service_prefix node.services w)
        λ r. found-Total r.0 _ _ (process_clients-Total node)

  process_publishers-Total : (node : Node) → Total (process_publishers s node)
  unfolding process_publishers
  process_publishers-Total node =
      >>=-Total _ _ (process_topic_info-Total s dps_publisher_prefix node.publishers w)
        λ r. found-Total r.0 _ _ (process_services-Total node)

  process_subscribers-Total : (node : Node) → Total (process_subscribers s node)
  unfolding process_subscribers
  process_subscribers-Total node =
      >>=-Total _ _ (process_topic_info-Total s dps_subscriber_prefix node.subscribers w)
        λ r. found-Total r.0 _ _ (process_publishers-Total node)

  process_name-Total : (node : Node) → Total (process_name s node)
  unfolding process_name
  process_name-Total node = elim (Option-cases (find dps_name_prefix s)) [
    | inl e ↦ rw (e, process_name) (process_subscribers-Total node)
    | inr (i, e) ↦
        rw (e, process_name)
          (>>=-Total _ _ (substr_from-Total s dps_name_prefix i e) λ t. (_, refl))
  ]

  pub process_topic-Total : (node : Node) → Total (process_topic s node)
  unfolding process_topic
  process_topic-Total node = elim (Option-cases (find dps_namespace_prefix s)) [
    | inl e ↦ rw (e, process_topic) (process_name-Total node)
    | inr (i, e) ↦
        rw (e, process_topic)
          (>>=-Total _ _ (substr_from-Total s dps_namespace_prefix i e) λ t. (_, refl))
  ]

-- Whatever strings a peer sends, as long as each fits a 64-bit size, onDiscovery reads the whole
-- payload: no slice is out of range, and every loop ends.
pub process_topics-Total :
    (topics : List Text) (node : Node) → All Fits topics → Total (process_topics topics node)
unfolding process_topics
process_topics-Total [] node h = (node, refl)
process_topics-Total (s ∷ topics) node h =
    >>=-Total _ _ (process_topic-Total s h.0 node) λ n. process_topics-Total topics n h.1
