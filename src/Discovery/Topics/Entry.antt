-- ===== src/Discovery/Topics/Entry.antt =====
-- The entry of one endpoint in a payload, as process_topic_info reads it: which prefixes are found in
-- it, and what topic and types it yields.
use mathlib.Core.Option
use mathlib.Core.List.{append_assoc}
use rmw_dps.Prelude.{
  ℕ, ◌+◌, ◌≡◌, refl, ap, ◌∙◌, true, List, [], ◌∷◌, ◌++◌, none, some, arith, length, drop,
  length-append, take-append, drop-append, drop-add, All-append,
}
use rmw_dps.Text.{Text, codes, find, starts_with}
use rmw_dps.Text.Find.{
  Lacks, find-append, find-absent, find-skip, find-barrier, find-separator, find_bounds, clash_all,
  find-past,
}
use rmw_dps.Discovery.Names.{types_separator, dps_namespace_prefix, dps_name_prefix}
use rmw_dps.Discovery.Topics.{Topic, process_topic_info}
use rmw_dps.Discovery.Topics.Split.{split_commas, sub_size-add}
use rmw_dps.Discovery.Topics.Total.{Fits, topic_at-separated}

-- A name in which no separator of a payload entry stands: no `&` and no `=`.
pub record IsPlain (s : Text) : Type 0 where
  pub no_ampersand : Lacks b'&' s
  pub no_equals : Lacks b'=' s

-- The topic and its types, with what stands between them.
abbrev pub tail : Text → Text → Text
tail t ty = t ++ (types_separator ++ ty)

-- The entry of an endpoint of some kind: publisher, subscriber, service or client.
abbrev pub entry : Text → Text → Text → Text
entry t ty kind = kind ++ (codes "&topic=" ++ tail t ty)

module _ (t ty : Text) (plain : IsPlain t) (plain_types : IsPlain ty) where
  pub namespace_absent : find dps_namespace_prefix (tail t ty) ≡ none
  unfolding find starts_with
  namespace_absent =
      find-barrier (codes "namespace") [] t (codes "types=" ++ ty) b'=' b'&' (omega arith)
        plain.no_equals (rw (find-absent (codes "namespace") [] ty b'=' plain_types.no_equals))

  pub name_absent : find dps_name_prefix (tail t ty) ≡ none
  unfolding find starts_with
  name_absent =
      find-barrier (codes "name") [] t (codes "types=" ++ ty) b'=' b'&' (omega arith)
        plain.no_equals (rw (find-absent (codes "name") [] ty b'=' plain_types.no_equals))

  -- No other entry's prefix is found in the topic or its types.
  pub kind_absent :
      (kind : Text) → Lacks b'&' kind → find (kind ++ codes "&topic=") (tail t ty) ≡ none
  unfolding starts_with
  kind_absent kind h =
      find-separator kind (codes "topic=") t (codes "types=" ++ ty) b'&' h plain.no_ampersand refl (
        find-absent kind (codes "topic=") (codes "types=" ++ ty) b'&'
          (All-append _ (codes "types=") ty (omega arith) plain_types.no_ampersand))

  separator_at : find types_separator (tail t ty) ≡ some (length t + 0)
  separator_at =
      find-skip b'&' (codes "types=") t (types_separator ++ ty) plain.no_ampersand
      ∙ ap (Option.map (λ (i : ℕ). length t + i)) (find-append types_separator ty)

  separator_after_kind : find types_separator (codes "&topic=" ++ (tail t ty)) ≡ some (7 + length t)
  unfolding find starts_with
  separator_after_kind = rw separator_at (ap some (omega arith))

  separator_in_entry :
      (kind : Text)
      → Lacks b'&' kind
      → find types_separator (entry t ty kind) ≡ some (length (kind ++ codes "&topic=") + length t)
  separator_in_entry kind h =
      find-skip b'&' (codes "types=") kind (codes "&topic=" ++ (tail t ty)) h
      ∙ ap (Option.map (λ (i : ℕ). length kind + i)) separator_after_kind
      ∙ ap some (omega (arith, length-append kind (codes "&topic=")))

  drop-entry :
      (kind : Text) → drop (length (kind ++ codes "&topic=")) (entry t ty kind) ≡ (tail t ty)
  drop-entry kind =
      rw (← append_assoc kind (codes "&topic=") (tail t ty))
        (drop-append (kind ++ codes "&topic=") (tail t ty))

  find-entry : (kind : Text) → find (kind ++ codes "&topic=") (entry t ty kind) ≡ some 0
  find-entry kind =
      rw (← append_assoc kind (codes "&topic=") (tail t ty))
        (find-append (kind ++ codes "&topic=") (tail t ty))

  types-entry :
      (kind : Text) → drop (length (kind ++ codes "&topic=") + length t + 7) (entry t ty kind) ≡ ty
  types-entry kind =
      drop-add (length (kind ++ codes "&topic=") + length t) 7 (entry t ty kind)
      ∙ ap (drop 7) (drop-add (length (kind ++ codes "&topic=")) (length t) (entry t ty kind))
      ∙ ap (λ (s : Text). drop 7 (drop (length t) s)) (drop-entry kind)
      ∙ ap (drop 7) (drop-append t (types_separator ++ ty))

  pub info-hit :
      (kind : Text) (topics : List Topic)
      → Lacks b'&' kind
      → Fits (entry t ty kind)
      → process_topic_info (entry t ty kind) (kind ++ codes "&topic=") topics
        ≡ some (true, topics ++ record { topic = t; types = split_commas ty } ∷ [])
  unfolding process_topic_info
  info-hit kind topics h w = ground (
    arith,
    find-entry kind,
    topic_at-separated (entry t ty kind) (length (kind ++ codes "&topic="))
        (length (kind ++ codes "&topic=") + length t) w,
    separator_in_entry kind h,
    sub_size-add (length (kind ++ codes "&topic=")) (length t),
    drop-entry kind,
    types-entry kind,
    take-append t (types_separator ++ ty),
    find_bounds types_separator (entry t ty kind) (length (kind ++ codes "&topic=") + length t),
  )

  -- A search goes past the kind of an entry that its needle clashes with.
  pub past_kind :
      (kind p : Text)
      → clash_all p (kind ++ codes "&topic=") ≡ true
      → find p (tail t ty) ≡ none
      → find p (entry t ty kind) ≡ none
  past_kind kind p c n =
      rw (← append_assoc kind (codes "&topic=") (tail t ty))
        (find-past p (kind ++ codes "&topic=") (tail t ty) c n)
