-- ===== src/Discovery/Topics/Split.antt =====
-- The loop of process_topic_info over the types, against a split at the commas.
use Prim.Native.Nat.{◌^◌}
use rmw_dps.Prelude.{
  ℕ, zero, suc, ◌+◌, ◌-◌, ◌≤◌, ◌<◌, ◌≡◌, refl, List, [], ◌∷◌, ◌++◌, none, some, arith, length, take,
  drop, length-drop, drop-add, Option-cases, inl, inr, ◌==◌, if◌then◌else◌,
}
use rmw_dps.Text.{Text, codes, find, find_at, substr, substr_from}
use rmw_dps.Text.Find.{Lacks, find_bounds, find-absent}
use rmw_dps.Discovery.Topics.{types_loop, types_of, sub_size}

-- Puts a byte before the first part.
cons_head : ℕ → List Text → List Text
cons_head c [] = (c ∷ []) ∷ []
cons_head c (part ∷ parts) = (c ∷ part) ∷ parts

-- The parts of a text between its commas.
pub split_commas : Text → List Text
unfolding cons_head
split_commas [] = [] ∷ []
split_commas (c ∷ s) =
    let parts = split_commas s in if b',' == c then [] ∷ parts else cons_head c parts

pub split_commas-last : (s : Text) → find (codes ",") s ≡ none → split_commas s ≡ s ∷ []
unfolding split_commas find
split_commas-last [] h = refl
split_commas-last (c ∷ s) h = ground (arith, split_commas-last s)

pub split_commas-next :
    (s : Text) (i : ℕ)
    → find (codes ",") s ≡ some i
    → split_commas s ≡ take i s ∷ split_commas (drop (suc i) s)
unfolding split_commas find
split_commas-next [] i h = ground arith
split_commas-next (c ∷ s) zero h = ground arith
split_commas-next (c ∷ s) (suc i) h = ground (arith, split_commas-next s i)

-- A text with no comma is its only part.
pub split_commas-one : (s : Text) → Lacks b',' s → split_commas s ≡ s ∷ []
split_commas-one s h = split_commas-last s (find-absent [] [] s b',' h)

pub split_commas-append :
    (a s : Text) → Lacks b',' a → split_commas (a ++ (codes "," ++ s)) ≡ a ∷ split_commas s
unfolding split_commas
split_commas-append [] s h = refl
split_commas-append (c ∷ a) s h = ground (arith, h.0, split_commas-append a s h.1)

-- `end_pos - pos` in size_t, where the end is not before the start.
pub sub_size-add : (pos i : ℕ) → i < 2 ^ 64 → sub_size (pos + i) pos ≡ i
unfolding sub_size
sub_size-add pos i h = omega arith

types_loop-npos : (fuel : ℕ) (s : Text) → types_loop fuel s none ≡ some []
unfolding types_loop
types_loop-npos zero s = refl
types_loop-npos (suc fuel) s = refl

comma_bounds :
    (s : Text) (pos i : ℕ) → find (codes ",") (drop pos s) ≡ some i → i + 1 ≤ length s - pos
comma_bounds s pos i e = omega (arith, find_bounds (codes ",") (drop pos s) i e, length-drop pos s)

-- The loop ends within its fuel, throws nothing, and splits the rest of the text at its commas.
pub types_loop-split :
    (fuel : ℕ) (s : Text) (pos : ℕ)
    → length s < 2 ^ 64
    → pos ≤ length s
    → length s + 2 ≤ fuel + pos
    → types_loop fuel s (some pos) ≡ some (split_commas (drop pos s))
unfolding types_loop find_at substr substr_from
types_loop-split zero s pos w h k = absurd (omega arith)
types_loop-split (suc fuel) s pos w h k = elim (Option-cases (find (codes ",") (drop pos s))) [
  | inl e ↦ ground (arith, e, split_commas-last (drop pos s) e, types_loop-npos fuel s)
  | inr (i, e) ↦ ground (
    arith,
    e,
    comma_bounds s pos i e,
    split_commas-next (drop pos s) i e,
    sub_size-add pos i,
    drop-add pos (suc i) s,
    types_loop-split fuel s (pos + i + 1) w,
  )
]

pub types_of-split :
    (s : Text) (pos : ℕ)
    → length s < 2 ^ 64
    → pos ≤ length s
    → types_of s pos ≡ some (split_commas (drop pos s))
types_of-split s pos w h = types_loop-split (suc (suc (length s))) s pos w h (omega arith)
