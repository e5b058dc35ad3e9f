-- ===== src/Messages/Valid.antt =====
-- The messages that rmw_dps_cpp/include/rmw_dps_cpp/TypeSupport_impl.hpp is meant for: the numbers
-- have the width of their type, an array has its length, and what is checked on serializing holds.
use rmw_dps.Prelude.{ℕ, ◌+◌, ◌≤◌, ◌<◌, Bool, true, false, List, length, All, ◌≡◌, ◌⊎◌}
use rmw_dps.Cbor.Codec.{IsUint, IsInt, IsSize}
use rmw_dps.Messages.Members.{
  Language, introspection_c, Primitive, boolean, octet, uint8, char_, int8, float32, float64, int16,
  uint16, int32, uint32, int64, uint64, text, wide_text, Shape, single, array_of, MemberType,
  primitive, message, unknown, Members, no_members, member, member_count, Scalar, Field, Element,
  Message, is_fixed,
}

-- The range of each type of number.
abbrev pub IsScalar : (p : Primitive) → Scalar p → Type 0
IsScalar boolean v = Unit
IsScalar octet v = IsUint 8 v
IsScalar uint8 v = IsUint 8 v
IsScalar char_ v = IsInt 8 v
IsScalar int8 v = IsInt 8 v
IsScalar float32 v = IsUint 32 v
IsScalar float64 v = IsUint 64 v
IsScalar int16 v = IsInt 16 v
IsScalar uint16 v = IsUint 16 v
IsScalar int32 v = IsInt 32 v
IsScalar uint32 v = IsUint 32 v
IsScalar int64 v = IsInt 64 v
IsScalar uint64 v = IsUint 64 v
IsScalar text v = IsSize (length v)
IsScalar wide_text v = IsSize (length v) × All (IsUint 16) v

-- A fixed array has its length.
abbrev pub HasLength : Bool → ℕ → ℕ → Type 0
HasLength true n size = size ≡ n
HasLength false n size = Unit

-- A sequence of messages has a length of 32 bits, at most its upper bound.
abbrev pub IsBounded : Bool → ℕ → ℕ → Type 0
IsBounded true n size = size ≤ n
IsBounded false n size = Unit

abbrev pub HasCount : Bool → Bool → ℕ → ℕ → Type 0
HasCount true upper n size = size ≡ n
HasCount false upper n size = IsUint 32 size × IsBounded upper n size

-- `P` of a single value, or of each value in an array.
abbrev pub OnField : {A : Type 0} → (A → Type 0) → (sh : Shape) → Field sh A → Type 0
OnField P (single bound) v = P v
OnField P (array_of n upper) v =
    HasLength (is_fixed n upper) n (length v) × IsSize (length v) × All P v

-- A text without a NUL.
abbrev pub IsNulFree : List ℕ → Type 0
IsNulFree = All (λ u. 0 < u)

-- A string of C: no NUL inside, and within its bound, if it has one.
abbrev pub IsCText : (sh : Shape) → Field sh (List ℕ) → Type 0
IsCText (single bound) v = IsNulFree v × ((bound ≡ 0) ⊎ (length v ≤ bound + 1))
IsCText (array_of n upper) v = All IsNulFree v

abbrev pub IsText : Language → (sh : Shape) (p : Primitive) → Field sh (Scalar p) → Type 0
IsText introspection_c sh text v = IsCText sh v
IsText introspection_c sh wide_text v = IsCText sh v
IsText lang sh p v = Unit

module _ (lang : Language) where
  abbrev mutual
    pub IsMember : (sh : Shape) (t : MemberType) → Field sh (Element t) → Type 0
    IsMember sh (primitive p) v = OnField (IsScalar p) sh v × IsText lang sh p v
    IsMember (single bound) (message ms) m = IsSize (member_count ms) × IsMembers ms m
    IsMember (array_of n upper) (message ms) v =
        IsSize (member_count ms)
        × HasCount (is_fixed n upper) upper n (length v)
        × All (IsMembers ms) v
    IsMember sh unknown v = ⊥

    pub IsMembers : (ms : Members) → Message ms → Type 0
    IsMembers no_members m = Unit
    IsMembers (member sh t ms) (v, m) = IsMember sh t v × IsMembers ms m

  abbrev pub IsMessage : (ms : Members) → Message ms → Type 0
  IsMessage ms m = IsSize (member_count ms) × IsMembers ms m
