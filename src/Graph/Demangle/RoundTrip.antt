-- ===== src/Graph/Demangle/RoundTrip.antt =====
-- The type names that _create_type_name of rmw_dps_cpp/src/type_support_common.hpp makes, read back by
-- rmw_dps_cpp/src/demangle.cpp.
use Prim.Native.Nat.{◌^◌}
use mathlib.Core.List.{append_assoc}
use rmw_dps.Prelude.{
  ℕ, suc, ◌+◌, ◌<◌, ◌≡◌, refl, ap, sym, ◌∙◌, false, [], ◌∷◌, ◌++◌, none, some, arith, if◌then◌else◌,
  length, take, drop, length-append, take-append, drop-append, drop-add,
}
use rmw_dps.Text.{Text, codes, find, substr, starts_with, text_eq}
use rmw_dps.Text.Find.{find-append}
use rmw_dps.Discovery.Topics.{sub_size}
use rmw_dps.Discovery.Topics.Total.{Fits}
use rmw_dps.Discovery.Names.{create_type_name}
use rmw_dps.Graph.Demangle.{last, demangle_if_ros_type}

abbrev pub needle : Text
needle = codes "dps_::"

-- The namespace as it stands in a type name.
abbrev pub type_prefix : Text → Text
type_prefix ns = if text_eq ns [] then [] else ns ++ codes "::"

-- The needle does not start in a namespace.
starts_with-namespace :
    (ns x : Text)
    → starts_with needle (ns ++ (codes "::" ++ x)) ≡ starts_with needle (ns ++ codes "::")
unfolding starts_with
starts_with-namespace [] x = refl
starts_with-namespace (a ∷ []) x = refl
starts_with-namespace (a ∷ b ∷ []) x = refl
starts_with-namespace (a ∷ b ∷ c ∷ []) x = refl
starts_with-namespace (a ∷ b ∷ c ∷ d ∷ []) x = refl
starts_with-namespace (a ∷ b ∷ c ∷ d ∷ e ∷ []) x = refl
starts_with-namespace (a ∷ b ∷ c ∷ d ∷ e ∷ f ∷ ns) x = refl

-- One step of a search.
find_missed :
    (p s : Text) (c : ℕ)
    → find p (c ∷ s) ≡ none
    → (starts_with p (c ∷ s) ≡ false) × (find p s ≡ none)
unfolding find
find_missed p s c h = (ground arith, ground arith)

find_next :
    (p s : Text) (c i : ℕ)
    → starts_with p (c ∷ s) ≡ false
    → find p s ≡ some i
    → find p (c ∷ s) ≡ some (suc i)
unfolding find
find_next p s c i h k = ground arith

find-namespace :
    (ns x : Text)
    → find needle (ns ++ codes "::") ≡ none
    → find needle (ns ++ (codes "::" ++ (needle ++ x))) ≡ some (length ns + 2)
find-namespace [] x h = unfold find starts_with in refl
find-namespace (a ∷ ns) x h =
    let (miss, missed) = find_missed needle (ns ++ codes "::") a h in
    find_next needle (ns ++ (codes "::" ++ (needle ++ x))) a (length ns + 2)
      (starts_with-namespace (a ∷ ns) (needle ++ x) ∙ miss) (find-namespace ns x missed)
    ∙ ap some (omega arith)

-- The needle is found right behind the namespace.
pub find-prefix :
    (ns x : Text)
    → find needle (type_prefix ns) ≡ none
    → find needle (type_prefix ns ++ (needle ++ x)) ≡ some (length (type_prefix ns))
unfolding text_eq
find-prefix [] x h = find-append needle x
find-prefix (a ∷ ns) x h =
    ap (find needle) (append_assoc (a ∷ ns) (codes "::") (needle ++ x))
    ∙ find-namespace (a ∷ ns) x h
    ∙ ap some (omega (arith, length-append ns (codes "::")))

last-append : (s : Text) (c : ℕ) → last (s ++ c ∷ []) ≡ some c
unfolding last
last-append [] c = refl
last-append (a ∷ []) c = refl
last-append (a ∷ b ∷ s) c = last-append (b ∷ s) c

module _ (p x : Text) where
  pub substr-prefix : substr (p ++ (needle ++ x)) 0 (length p) ≡ some p
  unfolding substr
  substr-prefix = ground (arith, take-append p (needle ++ x))

  drop-needle : drop (length p + 6) (p ++ (needle ++ x)) ≡ x
  drop-needle =
      drop-add (length p) 6 (p ++ (needle ++ x)) ∙ ap (drop 6) (drop-append p (needle ++ x))

  pub substr-needle : (n : ℕ) → substr (p ++ (needle ++ x)) (length p + 6) n ≡ some (take n x)
  unfolding substr
  substr-needle n = ground (arith, drop-needle, length-append p (needle ++ x))

  pub length-needle : length (p ++ (needle ++ x)) ≡ length p + 6 + length x
  length-needle = omega (arith, length-append p (needle ++ x))

-- The length of the type name, as the code computes it.
sub_size-name :
    (total before n : ℕ)
    → total ≡ before + n + 1
    → total < 2 ^ 64
    → sub_size (sub_size total 1) before ≡ n
unfolding sub_size
sub_size-name total before n e w = omega (arith, e)

last-create_type_name : (p name : Text) → last (p ++ (needle ++ (name ++ codes "_"))) ≡ some b'_'
last-create_type_name p name =
    ap last (
      ap (◌++◌ p) (sym (append_assoc needle name (codes "_")))
      ∙ sym (append_assoc p (needle ++ name) (codes "_")))
    ∙ last-append (p ++ (needle ++ name)) b'_'

module _ (find_and_replace : Text → Text → Text → Text) where
  demangle_parts :
      (s a b : Text) (position : ℕ)
      → last s ≡ some b'_'
      → find needle s ≡ some position
      → substr s 0 position ≡ some a
      → substr s (position + 6) (sub_size (sub_size (length s) 1) (position + 6)) ≡ some b
      → demangle_if_ros_type find_and_replace s
        ≡ some (find_and_replace a (codes "::") (codes "/") ++ b)
  unfolding demangle_if_ros_type
  demangle_parts s a b position h e f g = ground arith

  -- A message's type name is reported with its namespace rewritten and its own name, if the namespace
  -- does not hold `dps_::` and the type name fits a 64-bit size.
  pub demangle_if_ros_type-create_type_name :
      (ns name : Text)
      → find (codes "dps_::") (type_prefix ns) ≡ none
      → Fits (create_type_name ns name)
      → demangle_if_ros_type find_and_replace (create_type_name ns name)
        ≡ some (find_and_replace (type_prefix ns) (codes "::") (codes "/") ++ name)
  unfolding create_type_name
  demangle_if_ros_type-create_type_name ns name h w =
      let p = type_prefix ns in
      let x = name ++ codes "_" in
      let size =
        sub_size-name (length (p ++ (needle ++ x))) (length p + 6) (length name)
          (length-needle p x ∙ omega (arith, length-append name (codes "_"))) w in
      demangle_parts (create_type_name ns name) p name (length p) (last-create_type_name p name)
        (find-prefix ns x h) (substr-prefix p x)
        (ap (substr (p ++ (needle ++ x)) (length p + 6)) size
          ∙ substr-needle p x (length name)
          ∙ ap some (take-append name (codes "_")))
