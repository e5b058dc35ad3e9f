-- ===== src/Graph/Demangle/Services.antt =====
-- The type names of requests and responses, read back by _demangle_service_type_only of
-- rmw_dps_cpp/src/demangle.cpp.
use Prim.Native.Nat.{◌^◌}
use mathlib.Core.List.{append_assoc}
use rmw_dps.Prelude.{
  ℕ, suc, ◌+◌, ◌≤◌, ◌<◌, ◌≡◌, ◌≢◌, refl, ap, sym, ◌∙◌, true, [], ◌∷◌, ◌++◌, Option, none, some,
  arith, length, length-append, take-append, Option-cases, inl, inr, ◌⊎◌,
}
use rmw_dps.Text.{Text, codes, find, rfind, substr, starts_with}
use rmw_dps.Discovery.Topics.{sub_size}
use rmw_dps.Discovery.Topics.Total.{Fits}
use rmw_dps.Discovery.Topics.Split.{sub_size-add}
use rmw_dps.Discovery.Names.{create_type_name}
use rmw_dps.Graph.Demangle.{suffix_loop, demangle_service_type_only}
use rmw_dps.Graph.Demangle.RoundTrip.{
  needle, type_prefix, find-prefix, substr-prefix, substr-needle, length-needle,
}

abbrev request : Text
request = codes "_Request_"

abbrev response : Text
response = codes "_Response_"

-- One step of a search from the end.
rfind_next : (p s : Text) (c i : ℕ) → rfind p s ≡ some i → rfind p (c ∷ s) ≡ some (suc i)
unfolding rfind
rfind_next p s c i h = ground arith

rfind_found :
    (p s : Text) (c i : ℕ)
    → rfind p (c ∷ s) ≡ some i
    → ((j : ℕ) × (rfind p s ≡ some j) × (i ≡ suc j)) ⊎ ((i ≡ 0) × (starts_with p (c ∷ s) ≡ true))
unfolding rfind
rfind_found p s c i h = elim (Option-cases (rfind p s)) [
  | inl e ↦ inr (ground arith, ground arith)
  | inr (j, e) ↦ inl (j, e, ground arith)
]

rfind_bounds : (p s : Text) (i : ℕ) → rfind p s ≡ some i → i ≤ length s
rfind_bounds p [] i h = unfold rfind in ground arith
rfind_bounds p (c ∷ s) i h = elim (rfind_found p s c i h) [
  | inl (j, e, f) ↦ omega (arith, f, rfind_bounds p s j e)
  | inr (e, f) ↦ omega (arith, e)
]

rfind-request : (u : Text) → rfind request (u ++ request) ≡ some (length u)
rfind-request [] = unfold rfind starts_with in refl
rfind-request (c ∷ u) = rfind_next request (u ++ request) c (length u) (rfind-request u)

rfind-response : (u : Text) → rfind response (u ++ response) ≡ some (length u)
rfind-response [] = unfold rfind starts_with in refl
rfind-response (c ∷ u) = rfind_next response (u ++ response) c (length u) (rfind-response u)

-- A request that starts as a response has something before its suffix.
not_first : (u : Text) (c : ℕ) → starts_with response (c ∷ u ++ request) ≡ true → length u ≢ 0
not_first [] c g k = unfold starts_with in ground (arith, g)
not_first (d ∷ u) c g k = omega (arith, k)

-- What ends as a request does not end as a response.
rfind-response-request :
    (u : Text) (i : ℕ) → rfind response (u ++ request) ≡ some i → i + 10 ≢ length u + 9
rfind-response-request [] i h e = unfold rfind starts_with in cc
rfind-response-request (c ∷ u) i h e = elim (rfind_found response (u ++ request) c i h) [
  | inl (j, f, g) ↦ rfind-response-request u j f (omega (arith, e, g))
  | inr (f, g) ↦ not_first u c g (omega (arith, e, f))
]

-- The suffix test, where the suffix is at the end and where it is not.
at_end : (a n : ℕ) → a + n < 2 ^ 64 → sub_size (sub_size (a + n) a) n ≡ 0
unfolding sub_size
at_end a n w = omega arith

not_at_end :
    (total i n : ℕ)
    → total < 2 ^ 64
    → n < 2 ^ 64
    → i ≤ total
    → i + n ≢ total
    → sub_size (sub_size total i) n ≢ 0
unfolding sub_size
not_at_end total i n w v h k e = omega (arith, k, e)

suffix_loop-response :
    (u : Text) (start : Option ℕ)
    → Fits (u ++ response)
    → suffix_loop (response ∷ request ∷ []) (u ++ response) start ≡ some (length u)
unfolding suffix_loop
suffix_loop-response u start w =
    ground (arith, rfind-response u, at_end (length u) 10, length-append u response)

suffix_loop-request :
    (u : Text) (start : Option ℕ)
    → Fits (u ++ request)
    → suffix_loop (response ∷ request ∷ []) (u ++ request) start ≡ some (length u)
unfolding suffix_loop
suffix_loop-request u start w = elim (Option-cases (rfind response (u ++ request))) [
  | inl e ↦ ground (arith, rfind-request u, at_end (length u) 9, length-append u request)
  | inr (i, e) ↦ ground (
    arith,
    not_at_end (length (u ++ request)) i 10,
    rfind_bounds response (u ++ request) i e,
    rfind-response-request u i e,
    rfind-request u,
    at_end (length u) 9,
    length-append u request,
  )
]

-- A service's type name, cut before its suffix.
cut : (p name suffix : Text) → (p ++ (needle ++ name)) ++ suffix ≡ p ++ (needle ++ (name ++ suffix))
cut p name suffix =
    append_assoc p (needle ++ name) suffix ∙ ap (◌++◌ p) (append_assoc needle name suffix)

module _ (find_and_replace : Text → Text → Text → Text) where
  demangle_parts :
      (s a b : Text) (position suffix_position : ℕ)
      → find needle s ≡ some position
      → suffix_loop (response ∷ request ∷ []) s (some 0) ≡ some suffix_position
      → substr s 0 position ≡ some a
      → substr s (position + 6) (sub_size suffix_position (position + 6)) ≡ some b
      → demangle_service_type_only find_and_replace s
        ≡ some (find_and_replace a (codes "::") (codes "/") ++ b)
  unfolding demangle_service_type_only
  demangle_parts s a b position q h e f g = ground arith

  demangle-suffixed :
      (ns name suffix : Text)
      → find needle (type_prefix ns) ≡ none
      → length name < 2 ^ 64
      → suffix_loop
          (response ∷ request ∷ [])
          ((type_prefix ns ++ (needle ++ name)) ++ suffix)
          (some 0)
        ≡ some (length (type_prefix ns ++ (needle ++ name)))
      → demangle_service_type_only find_and_replace (type_prefix ns ++ (needle ++ (name ++ suffix)))
        ≡ some (find_and_replace (type_prefix ns) (codes "::") (codes "/") ++ name)
  demangle-suffixed ns name suffix h w e =
      let p = type_prefix ns in
      let x = name ++ suffix in
      let size =
        ap (λ (q : ℕ). sub_size q (length p + 6)) (length-needle p name)
        ∙ sub_size-add (length p + 6) (length name) w in
      demangle_parts (p ++ (needle ++ x)) p name (length p) (length (p ++ (needle ++ name)))
        (find-prefix ns x h)
        (ap (λ (s : Text). suffix_loop (response ∷ request ∷ []) s (some 0))
            (sym (cut p name suffix))
          ∙ e)
        (substr-prefix p x)
        (ap (substr (p ++ (needle ++ x)) (length p + 6)) size
          ∙ substr-needle p x (length name)
          ∙ ap some (take-append name suffix))

  -- The types of a service's request and response, as _create_type_name names them, are both reported
  -- as the service's type, with its namespace rewritten, if the namespace does not hold `dps_::` and
  -- the type names fit a 64-bit size.
  pub demangle_service_type_only-create_type_name :
      (ns name : Text)
      → find (codes "dps_::") (type_prefix ns) ≡ none
      → Fits (create_type_name ns (name ++ codes "_Request"))
      → Fits (create_type_name ns (name ++ codes "_Response"))
      → (demangle_service_type_only find_and_replace
            (create_type_name ns (name ++ codes "_Request"))
          ≡ some (find_and_replace (type_prefix ns) (codes "::") (codes "/") ++ name))
        × (demangle_service_type_only find_and_replace
              (create_type_name ns (name ++ codes "_Response"))
            ≡ some (find_and_replace (type_prefix ns) (codes "::") (codes "/") ++ name))
  unfolding create_type_name
  demangle_service_type_only-create_type_name ns name h w v =
      let p = type_prefix ns in
      let request_text =
        ap (λ (s : Text). p ++ (needle ++ s)) (append_assoc name (codes "_Request") (codes "_")) in
      let response_text =
        ap (λ (s : Text). p ++ (needle ++ s)) (append_assoc name (codes "_Response") (codes "_")) in
      let fits : length name < 2 ^ 64 = omega (
        arith,
        w,
        ap length request_text,
        length-needle p (name ++ request),
        length-append name request,
      ) in
      (
        ap (demangle_service_type_only find_and_replace) request_text
            ∙ demangle-suffixed ns name request h fits (
                suffix_loop-request (p ++ (needle ++ name)) (some 0)
                  (rw (cut p name request, ← request_text) w)),
        ap (demangle_service_type_only find_and_replace) response_text
            ∙ demangle-suffixed ns name response h fits (
                suffix_loop-response (p ++ (needle ++ name)) (some 0)
                  (rw (cut p name response, ← response_text) v)),
      )
