-- ===== src/Discovery/NodeListener/Difference.antt =====
-- The comparisons of NodeListener, against equality, and topic_difference.
use rmw_dps.Prelude.{◌≡◌, refl, Bool, true, false, not, ◌&&◌, ◌||◌, List, [], ◌∷◌, arith}
use rmw_dps.Text.{Text, text_eq, text_eq→eq, text_eq_refl}
use rmw_dps.TextMap.{TextSet, contains, lookup, lookup-put}
use rmw_dps.Discovery.Topics.{Topic, Node}
use rmw_dps.Discovery.NodeListener.{
  texts_eq, topic_eq, topics_eq, node_eq, topic_names, set_difference, topic_difference,
}

pub texts_eq→eq : (a b : List Text) → texts_eq a b ≡ true → a ≡ b
unfolding texts_eq
texts_eq→eq [] [] h = refl
texts_eq→eq [] (b ∷ bs) h = cc
texts_eq→eq (a ∷ as') [] h = cc
texts_eq→eq (a ∷ as') (b ∷ bs) h = ground (arith, text_eq→eq a b, texts_eq→eq as' bs)

pub topic_eq→eq : (a b : Topic) → topic_eq a b ≡ true → a ≡ b
unfolding topic_eq
topic_eq→eq a b h = ground (arith, text_eq→eq a.topic b.topic, texts_eq→eq a.types b.types)

pub topics_eq→eq : (a b : List Topic) → topics_eq a b ≡ true → a ≡ b
unfolding topics_eq
topics_eq→eq [] [] h = refl
topics_eq→eq [] (b ∷ bs) h = cc
topics_eq→eq (a ∷ as') [] h = cc
topics_eq→eq (a ∷ as') (b ∷ bs) h = ground (arith, topic_eq→eq a b, topics_eq→eq as' bs)

pub node_eq→eq : (a b : Node) → node_eq a b ≡ true → a ≡ b
unfolding node_eq
node_eq→eq a b h = ground (
  arith,
  topics_eq→eq a.clients b.clients,
  topics_eq→eq a.services b.services,
  topics_eq→eq a.publishers b.publishers,
  topics_eq→eq a.subscribers b.subscribers,
  text_eq→eq a.name b.name,
  text_eq→eq a.namespace_ b.namespace_,
)

texts_eq_refl : (a : List Text) → texts_eq a a ≡ true
unfolding texts_eq
texts_eq_refl [] = refl
texts_eq_refl (a ∷ as') = ground (arith, text_eq_refl a, texts_eq_refl as')

topics_eq_refl : (a : List Topic) → topics_eq a a ≡ true
unfolding topics_eq
topics_eq_refl [] = refl
topics_eq_refl (a ∷ as') =
    ground (arith, text_eq_refl a.topic, texts_eq_refl a.types, topics_eq_refl as')

pub node_eq_refl : (a : Node) → node_eq a a ≡ true
unfolding node_eq
node_eq_refl a = ground (
  arith,
  topics_eq_refl a.clients,
  topics_eq_refl a.services,
  topics_eq_refl a.publishers,
  topics_eq_refl a.subscribers,
  text_eq_refl a.name,
  text_eq_refl a.namespace_,
)

-- Some topic of the list has the name.
unfoldable pub has_topic : Text → List Topic → Bool
has_topic name [] = false
has_topic name (t ∷ topics) = text_eq name t.topic || has_topic name topics

unfoldable pub elem : Text → List Text → Bool
elem name [] = false
elem name (k ∷ ks) = text_eq name k || elem name ks

contains-topic_names :
    (name : Text) (topics : List Topic) → contains name (topic_names topics) ≡ has_topic name topics
unfolding topic_names has_topic lookup
contains-topic_names name [] = refl
contains-topic_names name (t ∷ topics) =
    ground
      (arith, contains-topic_names name topics, lookup-put t.topic name tt (topic_names topics))

elem-set_difference :
    (name : Text) (a b : TextSet)
    → elem name (set_difference a b) ≡ (contains name a && not (contains name b))
unfolding elem set_difference lookup
elem-set_difference name [] b = refl
elem-set_difference name ((k, u) ∷ a) b =
    ground (arith, elem-set_difference name a b, text_eq→eq name k)

-- A name is added exactly if only the new topics have it, and removed exactly if only the old ones do.
pub elem-topic_difference :
    (name : Text) (old_topics new_topics : List Topic)
    → (elem name (topic_difference old_topics new_topics).0
        ≡ (has_topic name new_topics && not (has_topic name old_topics)))
      × (elem name (topic_difference old_topics new_topics).1
          ≡ (has_topic name old_topics && not (has_topic name new_topics)))
unfolding topic_difference
elem-topic_difference name old_topics new_topics =
    let old' = contains-topic_names name old_topics in
    let new' = contains-topic_names name new_topics in
    (
      rw (← old', ← new')
          (elem-set_difference name (topic_names new_topics) (topic_names old_topics)),
      rw (← old', ← new')
          (elem-set_difference name (topic_names old_topics) (topic_names new_topics)),
    )
