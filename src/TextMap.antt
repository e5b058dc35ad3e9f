-- ===== src/TextMap.antt =====
-- `std::map<std::string, V>` and `std::set<std::string>`: entries in the order of their keys, which is
-- the order of an iteration. discovered_nodes_, publishers_, subscribers_, the sets of matched
-- endpoints and the maps of names and types of custom_node_info.hpp are such maps.
use Prim.Native.Nat.{compare, Ordering}
use rmw_dps.Prelude.{
  ◌≡◌, refl, Bool, List, [], ◌∷◌, Option, none, some, arith, is_some, if◌then◌else◌, map,
}
use rmw_dps.Text.{Text, text_eq, text_eq→eq, text_eq_refl}

-- The order of `std::string`: lexicographic by bytes.
unfoldable pub compare_text : Text → Text → Ordering
compare_text [] [] = Ordering.eq
compare_text [] (b ∷ bs) = Ordering.lt
compare_text (a ∷ as') [] = Ordering.gt
compare_text (a ∷ as') (b ∷ bs) = elim (compare a b) [
  | Ordering.lt ↦ Ordering.lt
  | Ordering.gt ↦ Ordering.gt
  | Ordering.eq ↦ compare_text as' bs
]

abbrev pub TextMap {ℓ} : Type ℓ → Type ℓ
TextMap V = List (Text × V)

abbrev pub TextSet : Type 0
TextSet = TextMap (Unit {0})

module _ {ℓ} {V : Type ℓ} where
  -- m.find(k)
  unfoldable pub lookup : Text → TextMap V → Option V
  lookup k [] = none
  lookup k ((j, v) ∷ m) = if text_eq k j then some v else lookup k m

  -- m[k] = v
  unfoldable pub put : Text → V → TextMap V → TextMap V
  unfolding compare_text
  put k v [] = (k, v) ∷ []
  put k v ((j, w) ∷ m) = elim (compare_text k j) [
    | Ordering.lt ↦ (k, v) ∷ (j, w) ∷ m
    | Ordering.eq ↦ (k, v) ∷ m
    | Ordering.gt ↦ (j, w) ∷ put k v m
  ]

  -- m.erase(k): keys are unique, so at most one entry goes.
  unfoldable pub erase : Text → TextMap V → TextMap V
  erase k [] = []
  erase k ((j, w) ∷ m) = let rest = erase k m in if text_eq k j then rest else (j, w) ∷ rest

  abbrev pub keys : TextMap V → List Text
  keys = map (λ e. e.0)

-- s.count(k) > 0
abbrev pub contains {ℓ} : {V : Type ℓ} → Text → TextMap V → Bool
contains k m = is_some (lookup k m)

-- s.insert(k)
abbrev pub insert : Text → TextSet → TextSet
insert k s = put k tt s

pub compare_text_refl : (a : Text) → compare_text a a ≡ Ordering.eq
unfolding compare_text
compare_text_refl [] = refl
compare_text_refl (a ∷ as') = ground (arith, compare_text_refl as')

pub compare_text-eq : (a b : Text) → compare_text a b ≡ Ordering.eq → a ≡ b
unfolding compare_text
compare_text-eq [] [] h = refl
compare_text-eq [] (b ∷ bs) h = cc
compare_text-eq (a ∷ as') [] h = cc
compare_text-eq (a ∷ as') (b ∷ bs) h = ground (arith, compare_text-eq as' bs)

module _ {ℓ} {V : Type ℓ} where
  pub lookup-put :
      (k j : Text) (v : V) (m : TextMap V)
      → lookup j (put k v m) ≡ (if text_eq j k then some v else lookup j m)
  unfolding lookup put
  lookup-put k j v [] = refl
  lookup-put k j v ((i, w) ∷ m) = ground (
    arith,
    lookup-put k j v m,
    compare_text-eq k i,
    compare_text_refl k,
    text_eq→eq j k,
    text_eq→eq j i,
  )

  pub lookup-erase :
      (k j : Text) (m : TextMap V)
      → lookup j (erase k m) ≡ (if text_eq j k then none else lookup j m)
  unfolding lookup erase
  lookup-erase k j [] = ground arith
  lookup-erase k j ((i, w) ∷ m) =
      ground
        (arith, lookup-erase k j m, text_eq→eq j k, text_eq→eq k i, text_eq→eq j i, text_eq_refl k)
