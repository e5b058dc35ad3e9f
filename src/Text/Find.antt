-- ===== src/Text/Find.antt =====
-- Where a search of Text finds its needle, and where it cannot.
use mathlib.Core.Option
use rmw_dps.Prelude.{
  ℕ, ◌+◌, ◌≤◌, ◌≡◌, ◌≢◌, refl, Bool, true, false, [], ◌∷◌, ◌++◌, none, some, arith, length, All,
  Bool-cases, Option-cases, not, ◌&&◌, ◌||◌, ◌==◌, inl, inr,
}
use rmw_dps.Text.{Text, starts_with, find}

-- No byte of `s` is `c`.
abbrev pub Lacks : ℕ → Text → Type 0
Lacks c = All (λ d. d ≢ c)

pub starts_with-append : (p s : Text) → starts_with p (p ++ s) ≡ true
unfolding starts_with
starts_with-append [] s = refl
starts_with-append (c ∷ p) s = ground (arith, starts_with-append p s)

-- A text that starts with the needle has it at 0.
pub find-append : (p s : Text) → find p (p ++ s) ≡ some 0
unfolding find
find-append [] [] = refl
find-append [] (c ∷ s) = refl
find-append (c ∷ p) s = ground (arith, starts_with-append p s)

-- A needle with a byte that the text lacks is not there.
pub starts_with-absent : (p q s : Text) (c : ℕ) → Lacks c s → starts_with (p ++ c ∷ q) s ≡ false
unfolding starts_with
starts_with-absent [] q [] c h = refl
starts_with-absent [] q (d ∷ s) c h = ground (arith, h.0)
starts_with-absent (e ∷ p) q [] c h = refl
starts_with-absent (e ∷ p) q (d ∷ s) c h = ground (arith, starts_with-absent p q s c h.1)

pub find-absent : (p q s : Text) (c : ℕ) → Lacks c s → find (p ++ c ∷ q) s ≡ none
unfolding find
find-absent p q [] c h = rw (starts_with-absent p q [] c h)
find-absent p q (d ∷ s) c h = rw (starts_with-absent p q (d ∷ s) c h) (rw (find-absent p q s c h.1))

-- A search goes past a part of the text that lacks the first byte of the needle.
pub find-skip :
    (c : ℕ) (p a s : Text)
    → Lacks c a
    → find (c ∷ p) (a ++ s) ≡ Option.map (λ i. length a + i) (find (c ∷ p) s)
unfolding find
find-skip c p [] s h = ground arith
find-skip c p (d ∷ a) s h = ground (arith, h.0, find-skip c p a s h.1)

-- A needle with a byte `c`, and without the byte `sep`, is not found before the first `sep` of a
-- text that lacks `c` up to there.
pub starts_with-barrier :
    (p q t s : Text) (c sep : ℕ)
    → Lacks sep (p ++ c ∷ q)
    → Lacks c t
    → starts_with (p ++ c ∷ q) (t ++ sep ∷ s) ≡ false
unfolding starts_with
starts_with-barrier [] q [] s c sep h k = ground (arith, h.0)
starts_with-barrier [] q (d ∷ t) s c sep h k = ground (arith, k.0)
starts_with-barrier (e ∷ p) q [] s c sep h k = ground (arith, h.0)
starts_with-barrier (e ∷ p) q (d ∷ t) s c sep h k =
    ground (arith, starts_with-barrier p q t s c sep h.1 k.1)

pub find-barrier :
    (p q t s : Text) (c sep : ℕ)
    → Lacks sep (p ++ c ∷ q)
    → Lacks c t
    → find (p ++ c ∷ q) s ≡ none
    → find (p ++ c ∷ q) (t ++ sep ∷ s) ≡ none
unfolding find
find-barrier p q [] s c sep h k n = rw (starts_with-barrier p q [] s c sep h k) (rw n)
find-barrier p q (d ∷ t) s c sep h k n =
    rw (starts_with-barrier p q (d ∷ t) s c sep h k) (rw (find-barrier p q t s c sep h k.1 n))

-- A needle that holds `sep` once is found before the first `sep` of a text only if what follows
-- `sep` in the two agrees.
pub starts_with-separator :
    (p q t s : Text) (sep : ℕ)
    → Lacks sep p
    → Lacks sep t
    → starts_with q s ≡ false
    → starts_with (p ++ sep ∷ q) (t ++ sep ∷ s) ≡ false
unfolding starts_with
starts_with-separator [] q [] s sep h k n = ground arith
starts_with-separator [] q (d ∷ t) s sep h k n = ground (arith, k.0)
starts_with-separator (e ∷ p) q [] s sep h k n = ground (arith, h.0)
starts_with-separator (e ∷ p) q (d ∷ t) s sep h k n =
    ground (arith, starts_with-separator p q t s sep h.1 k.1 n)

pub find-separator :
    (p q t s : Text) (sep : ℕ)
    → Lacks sep p
    → Lacks sep t
    → starts_with q s ≡ false
    → find (p ++ sep ∷ q) s ≡ none
    → find (p ++ sep ∷ q) (t ++ sep ∷ s) ≡ none
unfolding find
find-separator p q [] s sep h k n f = rw (starts_with-separator p q [] s sep h k n) (rw f)
find-separator p q (d ∷ t) s sep h k n f =
    rw (starts_with-separator p q (d ∷ t) s sep h k n) (rw (find-separator p q t s sep h k.1 n f))

starts_with_bounds : (p s : Text) → starts_with p s ≡ true → length p ≤ length s
unfolding starts_with
starts_with_bounds [] s h = omega arith
starts_with_bounds (c ∷ p) [] h = cc
starts_with_bounds (c ∷ p) (d ∷ s) h = ground (arith, starts_with_bounds p s)

-- An occurrence fits into the text.
pub find_bounds : (p s : Text) (i : ℕ) → find p s ≡ some i → i + length p ≤ length s
unfolding find
find_bounds p [] i h = elim (Bool-cases (starts_with p [])) [
  | inl e ↦ ground (arith, starts_with_bounds p [] e)
  | inr e ↦ ground (arith, e)
]
find_bounds p (c ∷ s) i h = elim (Option-cases (find p s)) [
  | inl e ↦ ground (arith, e, starts_with_bounds p (c ∷ s))
  | inr (j, e) ↦ ground (arith, find_bounds p s j e, starts_with_bounds p (c ∷ s))
]

-- The two differ at a place that both have.
unfoldable pub clash : Text → Text → Bool
clash [] s = false
clash (c ∷ p) [] = false
clash (c ∷ p) (d ∷ s) = not (c == d) || clash p s

-- The needle clashes with the text at each start.
unfoldable pub clash_all : Text → Text → Bool
unfolding clash
clash_all p [] = true
clash_all p (c ∷ s) = clash p (c ∷ s) && clash_all p s

starts_with-clash : (p k s : Text) → clash p k ≡ true → starts_with p (k ++ s) ≡ false
unfolding clash starts_with
starts_with-clash [] k s h = cc
starts_with-clash (c ∷ p) [] s h = cc
starts_with-clash (c ∷ p) (d ∷ k) s h = ground (arith, starts_with-clash p k s)

-- A search goes past a part that clashes with the needle wherever it starts in it.
pub find-past : (p k s : Text) → clash_all p k ≡ true → find p s ≡ none → find p (k ++ s) ≡ none
unfolding clash_all find
find-past p [] s h n = n
find-past p (c ∷ k) s h n = ground (arith, starts_with-clash p (c ∷ k) s, find-past p k s)
