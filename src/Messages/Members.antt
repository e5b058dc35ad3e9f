-- ===== src/Messages/Members.antt =====
-- The descriptions of messages that rmw_dps_cpp/include/rmw_dps_cpp/TypeSupport_impl.hpp walks, and the
-- messages that they describe: MessageMember(s) of the introspection packages. A number that is not an
-- integer is its bit pattern. A C string is not null, and its text ends at the first NUL.
use rmw_dps.Prelude.{ℕ, ◌+◌, Bool, not, ◌&&◌, List, [], ◌∷◌, ◌==◌, if◌then◌else◌}
use rmw_dps.Text.{Text}
use rmw_dps.Cbor.Codec.{ℤ}

-- rosidl_typesupport_introspection_c or rosidl_typesupport_introspection_cpp
pub data Language : Type 0 where
  introspection_c introspection_cpp : Language

-- type_id_
pub data Primitive : Type 0 where
  boolean octet uint8 char_ int8 float32 float64 int16 uint16 int32 uint32 int64 uint64 : Primitive
  text wide_text : Primitive

-- A single value with string_upper_bound_, or an array (is_array_) with array_size_ and
-- is_upper_bound_.
pub data Shape : Type 0 where
  single : ℕ → Shape
  array_of : ℕ → Bool → Shape

mutual
  -- `unknown` is any other type_id_.
  pub data MemberType : Type 0 where
    primitive : Primitive → MemberType
    message : Members → MemberType
    unknown : MemberType

  pub data Members : Type 0 where
    no_members : Members
    member : Shape → MemberType → Members → Members

-- member_count_
unfoldable pub member_count : Members → ℕ
member_count no_members = 0
member_count (member sh t ms) = 1 + member_count ms

-- array_size_ && !is_upper_bound_
unfoldable pub is_fixed : ℕ → Bool → Bool
is_fixed array_size is_upper_bound = not (array_size == 0) && not is_upper_bound

abbrev pub Scalar : Primitive → Type 0
Scalar boolean = Bool
Scalar octet = ℕ
Scalar uint8 = ℕ
Scalar char_ = ℤ
Scalar int8 = ℤ
Scalar float32 = ℕ
Scalar float64 = ℕ
Scalar int16 = ℤ
Scalar uint16 = ℕ
Scalar int32 = ℤ
Scalar uint32 = ℕ
Scalar int64 = ℤ
Scalar uint64 = ℕ
Scalar text = Text
Scalar wide_text = List ℕ

abbrev pub Field : Shape → Type 0 → Type 0
Field (single bound) A = A
Field (array_of n upper) A = List A

abbrev mutual
  pub Element : MemberType → Type 0
  Element (primitive p) = Scalar p
  Element (message ms) = Message ms
  Element unknown = Unit

  pub Message : Members → Type 0
  Message no_members = Unit
  Message (member sh t ms) = Field sh (Element t) × Message ms

-- c_str(), as far as it is read.
unfoldable pub until_nul : List ℕ → List ℕ
until_nul [] = []
until_nul (u ∷ us) = let rest = until_nul us in if u == 0 then [] else u ∷ rest
