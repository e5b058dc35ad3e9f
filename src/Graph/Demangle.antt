-- ===== src/Graph/Demangle.antt =====
-- The type names that the graph queries report: rmw_dps_cpp/src/demangle.cpp.
-- rcpputils::find_and_replace is a parameter. `none` is a read or a slice out of range.
pub mod RoundTrip
pub mod Services
use rmw_dps.Prelude.{
  ◌>>=◌, ℕ, zero, suc, ◌+◌, ◌≡◌, ◌≢◌, refl, ap, sym, ◌∙◌, true, false, List, [], ◌∷◌, ◌++◌, Option,
  none, some, arith, ◌==◌, if◌then◌else◌, length, take, drop, length-append, take-append,
  drop-append, Bool-cases, inl, inr,
}
use rmw_dps.Text.{Text, codes, find, rfind, substr, starts_with, text_eq}
use rmw_dps.Discovery.Topics.{sub_size}
use rmw_dps.Discovery.Names.{create_type_name}

-- The last character.
unfoldable pub last : Text → Option ℕ
last [] = none
last (c ∷ []) = some c
last (c ∷ d ∷ s) = last (d ∷ s)

-- The loop over the suffixes, from the position that the round before left.
unfoldable pub suffix_loop : List Text → Text → Option ℕ → Option ℕ
suffix_loop [] s suffix_position = suffix_position
suffix_loop (suffix ∷ suffixes) s suffix_position = elim (rfind suffix s) [
  | none ↦ suffix_loop suffixes s none
  | some i ↦
      let rest = suffix_loop suffixes s (some i) in
      if sub_size (sub_size (length s) i) (length suffix) == 0 then some i else rest
]

module _ (find_and_replace : Text → Text → Text → Text) where
  -- _demangle_if_ros_type
  unfoldable pub demangle_if_ros_type : Text → Option Text
  demangle_if_ros_type s = elim (last s) [
    | none ↦ none
    | some c ↦
        if c == b'_'
        then elim (find (codes "dps_::") s) [
          | none ↦ some s
          | some position ↦ do
            type_namespace ← substr s 0 position
            type_name ← substr s (position + 6) (sub_size (sub_size (length s) 1) (position + 6))
            some (find_and_replace type_namespace (codes "::") (codes "/") ++ type_name)
        ]
        else some s
  ]

  -- _demangle_service_type_only
  unfoldable pub demangle_service_type_only : Text → Option Text
  unfolding suffix_loop
  demangle_service_type_only s = elim (find (codes "dps_::") s) [
    | none ↦ some []
    | some position ↦ elim (suffix_loop (codes "_Response_" ∷ codes "_Request_" ∷ []) s (some 0)) [
      | none ↦ some []
      | some suffix_position ↦ do
        type_namespace ← substr s 0 position
        type_name ← substr s (position + 6) (sub_size suffix_position (position + 6))
        some (find_and_replace type_namespace (codes "::") (codes "/") ++ type_name)
    ]
  ]
