-- ===== src/Graph/Results/Copies.antt =====
-- Copies that fail on the way: _copy_data_to_results of rmw_dps_cpp/src/rmw_node_info_and_types.cpp
-- and the loop of rmw_dps_cpp/src/rmw_node_names.cpp.
use rmw_dps.Prelude.{
  ℕ, suc, ◌≡◌, ◌≢◌, refl, ap, Bool, true, false, List, [], ◌∷◌, Option, some, arith, map, ◌⊎◌, ◌&&◌,
  if◌then◌else◌, inl, inr, Bool-cases, All,
}
use rmw_dps.Text.{Text, c_str}
use rmw_dps.TextMap.{TextMap, keys}
use rmw_dps.Rmw.{
  RmwRet, ok, error, timeout, invalid_argument, bad_alloc, unsupported,
  incorrect_rmw_implementation,
}
use rmw_dps.Discovery.Topics.{Node}
use rmw_dps.Discovery.NodeListener.{NodeInfo}
use rmw_dps.Graph.{NamesAndTypes, get_discovered_nodes}
use rmw_dps.Rmw.{is_ok}
use rmw_dps.Graph.Results.{
  Copied, copied, failed, Out, copy_types, copy_topics, copy_data_to_results, copy_nodes,
  rmw_get_node_names,
}

is_ok_lem : (ret : RmwRet) → is_ok ret ≡ false → ret ≢ ok
unfolding is_ok
is_ok_lem ok h e = cc
is_ok_lem error h e = cc
is_ok_lem timeout h e = cc
is_ok_lem invalid_argument h e = cc
is_ok_lem bad_alloc h e = cc
is_ok_lem unsupported h e = cc
is_ok_lem incorrect_rmw_implementation h e = cc

bad_alloc_lem : bad_alloc ≢ ok
bad_alloc_lem e = cc

abbrev is_empty {ℓ} : {A : Type ℓ} → List A → Bool
is_empty [] = true
is_empty (a ∷ as') = false

-- The loop copies everything, or fails with a code that is not OK.
abbrev Whole : {A : Type 0} → A → Copied A → Type 0
Whole a c = ((k : ℕ) × (c ≡ copied k a)) ⊎ ((ret : RmwRet) × (ret ≢ ok) × (c ≡ failed ret))

-- Each topic with its demangled types, as strings of C.
abbrev pub results : (Text → Text) → NamesAndTypes → Out
results f topics = map (λ e. (c_str e.0, map (λ s. c_str (f s)) (keys e.1))) topics

module _ (strdup : ℕ → Bool) (array_init : ℕ → RmwRet) where
  module _ (demangle_type : Text → Option Text) (f : Text → Text) where
    -- The demangling function returns, for each of the types.
    abbrev pub Demangles : List Text → Type 0
    Demangles names = All (λ s. demangle_type s ≡ some (f s)) names

    abbrev pub AllDemangle : NamesAndTypes → Type 0
    AllDemangle topics = All (λ e. Demangles (keys e.1)) topics

    copy_types-Whole :
        (k : ℕ) (names : List Text)
        → Demangles names
        → Whole (map (λ s. c_str (f s)) names) (copy_types strdup array_init demangle_type k names)
    unfolding copy_types
    copy_types-Whole k [] total = inl (k, refl)
    copy_types-Whole k (n ∷ names) (total, totals) = elim (Bool-cases (strdup k)) [
      | inl e ↦ elim (copy_types-Whole (suc k) names totals) [
        | inl (j, c) ↦ inl (j, ground (arith, total))
        | inr (ret, bad, c) ↦ inr (ret, bad, ground (arith, total))
      ]
      | inr e ↦ inr (bad_alloc, bad_alloc_lem, ground (arith, total))
    ]

    copy_topics-Whole :
        (k : ℕ) (topics : NamesAndTypes)
        → AllDemangle topics
        → Whole (results f topics) (copy_topics strdup array_init demangle_type k topics)
    unfolding copy_topics
    copy_topics-Whole k [] total = inl (k, refl)
    copy_topics-Whole k ((t, types) ∷ topics) (total, totals) = elim (Bool-cases (strdup k)) [
      | inl e ↦ elim (Bool-cases (is_ok (array_init (suc k)))) [
        | inl i ↦ elim (copy_types-Whole (suc k) (keys types) total) [
          | inl (j, c) ↦ elim (copy_topics-Whole j topics totals) [
            | inl (l, d) ↦ inl (l, ground arith)
            | inr (ret, bad, d) ↦ inr (ret, bad, ground arith)
          ]
          | inr (ret, bad, c) ↦ inr (ret, bad, ground arith)
        ]
        | inr i ↦ inr (array_init (suc k), is_ok_lem _ i, ground arith)
      ]
      | inr e ↦ inr (bad_alloc, bad_alloc_lem, ground arith)
    ]

    -- _copy_data_to_results, with a demangling function that returns for the types of the topics, either
    -- returns OK, and then the results hold every topic, in order, with all its types demangled, each
    -- string up to its first NUL, or another code, and then they are empty or, if the initialisation
    -- of the results failed, as they were. For no topic, it returns OK and leaves them as they were.
    pub copy_data_to_results_lem :
        (names_init : RmwRet) (out : Out) (topics : NamesAndTypes)
        → AllDemangle topics
        → (r : RmwRet × Out) × (copy_data_to_results strdup array_init names_init demangle_type out
              topics
            ≡ some r)
          × ((r ≡ (ok, (if is_empty topics then out else results f topics)))
              ⊎ ((r.0 ≢ ok) × (r.1 ≡ (if is_ok names_init then [] else out))))
    unfolding copy_data_to_results
    copy_data_to_results_lem names_init out [] total = ((ok, out), refl, inl refl)
    copy_data_to_results_lem names_init out (t ∷ topics) total =
        elim (Bool-cases (is_ok names_init)) [
          | inl e ↦ elim (copy_topics-Whole 0 (t ∷ topics) total) [
            | inl (k, c) ↦ (_, ground arith, inl refl)
            | inr (ret, bad, c) ↦ ((ret, []), ground arith, inr (bad, ground arith))
          ]
          | inr e ↦ ((names_init, out), ground arith, inr (is_ok_lem _ e, ground arith))
        ]

  map-get_discovered_nodes :
      (f : Node → Text) (nodes : TextMap Node)
      → map f (get_discovered_nodes nodes) ≡ map (λ e. f e.1) nodes
  unfolding get_discovered_nodes
  map-get_discovered_nodes f [] = refl
  map-get_discovered_nodes f (e ∷ nodes) = ap (◌∷◌ (f e.1)) (map-get_discovered_nodes f nodes)

  copy_nodes-Whole :
      (k : ℕ) (nodes : List Node)
      → Whole
          (map (λ n. c_str n.name) nodes, map (λ n. c_str n.namespace_) nodes)
          (copy_nodes strdup array_init k nodes)
  unfolding copy_nodes
  copy_nodes-Whole k [] = inl (k, refl)
  copy_nodes-Whole k (n ∷ nodes) = elim (Bool-cases (strdup k && strdup (suc k))) [
    | inl e ↦ elim (copy_nodes-Whole (suc (suc k)) nodes) [
      | inl (j, c) ↦ inl (j, ground arith)
      | inr (ret, bad, c) ↦ inr (ret, bad, ground arith)
    ]
    | inr e ↦ inr (bad_alloc, bad_alloc_lem, ground arith)
  ]

  -- rmw_get_node_names, asked through a node of this implementation with zero arrays, either returns OK,
  -- and then the arrays hold the names and the namespaces of all discovered nodes, in the same order,
  -- each up to its first NUL, or BAD_ALLOC, and then both are empty.
  pub rmw_get_node_names_lem :
      (impl : NodeInfo) (out : List Text × List Text)
      → (rmw_get_node_names strdup array_init
            (some (record { ours = true; data_ = some impl }))
            ok
            ok
            out
          ≡ some (
            ok,
            (
              map (λ e. c_str e.1.name) impl.discovered_nodes,
              map (λ e. c_str e.1.namespace_) impl.discovered_nodes,
            ),
          ))
        ⊎ (rmw_get_node_names strdup array_init
              (some (record { ours = true; data_ = some impl }))
              ok
              ok
              out
            ≡ some (bad_alloc, ([], [])))
  unfolding rmw_get_node_names is_ok
  rmw_get_node_names_lem impl out =
      elim (Bool-cases (is_ok (array_init 0) && is_ok (array_init 1))) [
        | inl e ↦ elim (copy_nodes-Whole 0 (get_discovered_nodes impl.discovered_nodes)) [
          | inl (k, c) ↦ inl (
              ground (
                arith,
                map-get_discovered_nodes (λ n. c_str n.name) impl.discovered_nodes,
                map-get_discovered_nodes (λ n. c_str n.namespace_) impl.discovered_nodes,
              ))
          | inr (ret, bad, c) ↦ inr (ground arith)
        ]
        | inr e ↦ inr (ground arith)
      ]
