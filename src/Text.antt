-- ===== src/Text.antt =====
-- `std::string` as the code walks it: a list of bytes, with the searches and slices that
-- rmw_dps_cpp/include/rmw_dps_cpp/custom_node_info.hpp and rmw_dps_cpp/src/demangle.cpp call.
-- `none` stands for `std::string::npos`, and for the exception of a `substr` past the end.
pub mod Find
use Prim.Native.Char.{code}
use Prim.Native.String.{String}
use mathlib.Core.Option
use rmw_dps.Prelude.{
  ℕ, zero, suc, ◌+◌, Bool, true, false, ◌&&◌, List, [], ◌∷◌, Option, none, some, ◌==◌, leb, length,
  take, drop, if◌then◌else◌, ◌≡◌, refl, arith, ◌⊎◌, inl, inr,
}

abbrev pub Text : Type 0
Text = List ℕ

-- A text literal.
abbrev pub codes : String → Text
codes String.[] = []
codes (String.◌∷◌ c s) = code c ∷ codes s

-- a == b
unfoldable pub text_eq : Text → Text → Bool
text_eq [] [] = true
text_eq [] (b ∷ bs) = false
text_eq (a ∷ as') [] = false
text_eq (a ∷ as') (b ∷ bs) = a == b && text_eq as' bs

unfoldable pub starts_with : Text → Text → Bool
starts_with [] s = true
starts_with (c ∷ p) [] = false
starts_with (c ∷ p) (d ∷ s) = c == d && starts_with p s

-- What a C function reads of s.c_str(): the bytes before the first NUL.
unfoldable pub c_str : Text → Text
c_str [] = []
c_str (c ∷ s) = let rest = c_str s in if c == 0 then [] else c ∷ rest

-- s.find(p)
unfoldable pub find : Text → Text → Option ℕ
unfolding starts_with
find p [] = if starts_with p [] then some 0 else none
find p (c ∷ s) = if starts_with p (c ∷ s) then some 0 else Option.map suc (find p s)

-- s.find(p, pos)
unfoldable pub find_at : Text → Text → ℕ → Option ℕ
unfolding find
find_at p s pos =
    if leb pos (length s) then Option.map (λ i. pos + i) (find p (drop pos s)) else none

-- s.rfind(p)
unfoldable pub rfind : Text → Text → Option ℕ
unfolding starts_with
rfind p [] = if starts_with p [] then some 0 else none
rfind p (c ∷ s) = elim (rfind p s) [
  | some i ↦ some (suc i)
  | none ↦ if starts_with p (c ∷ s) then some 0 else none
]

-- s.substr(pos, count)
unfoldable pub substr : Text → ℕ → ℕ → Option Text
substr s pos count = if leb pos (length s) then some (take count (drop pos s)) else none

-- s.substr(pos)
unfoldable pub substr_from : Text → ℕ → Option Text
substr_from s pos = if leb pos (length s) then some (drop pos s) else none

pub text_eq_refl : (a : Text) → text_eq a a ≡ true
unfolding text_eq
text_eq_refl [] = refl
text_eq_refl (a ∷ as') = ground (arith, text_eq_refl as')

pub text_eq→eq : (a b : Text) → text_eq a b ≡ true → a ≡ b
unfolding text_eq
text_eq→eq [] [] h = refl
text_eq→eq [] (b ∷ bs) h = cc
text_eq→eq (a ∷ as') [] h = cc
text_eq→eq (a ∷ as') (b ∷ bs) h = ground (arith, text_eq→eq as' bs)
