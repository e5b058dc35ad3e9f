-- ===== src/Messages/Accepts.antt =====
-- What the exceptions of serializeROSmessage in
-- rmw_dps_cpp/include/rmw_dps_cpp/TypeSupport_impl.hpp depend on.
use Prim.Native.Nat.{◌%◌, ◌^◌}
use rmw_dps.Prelude.{
  ◌>>=◌, ℕ, ◌+◌, Bool, true, false, not, ◌&&◌, ◌||◌, List, [], ◌∷◌, Option, none, some, is_some,
  length, take, ◌≡◌, refl, arith, if◌then◌else◌, ltb, leb, ◌==◌, Bool-cases, inl, inr,
}
use rmw_dps.Cbor.Codec.{Codec}
use rmw_dps.Cbor.Tx.{TxStream, serialize_size, tx_string, tx_u16string, tx_uint}
use rmw_dps.Messages.Members.{
  Language, introspection_c, introspection_cpp, Primitive, text, wide_text, Shape, single, array_of,
  MemberType, primitive, message, unknown, Members, no_members, member, member_count, is_fixed,
  until_nul, Scalar, Field, Element, Message,
}
use rmw_dps.Messages.Fields.{serialize_field, serialize_strings, serialize_u16strings}
use rmw_dps.Messages.Serialize.{
  serialize_each, get_submessage_sequence_serialize, serialize_members, serialize_member,
  serialize_message,
}

-- A single string of C is at most one longer than its bound, if it has one.
abbrev accepts_strings : (sh : Shape) → Field sh (List ℕ) → Bool
accepts_strings (single bound) v = bound == 0 || leb (length (until_nul v)) (bound + 1)
accepts_strings (array_of n upper) v = true

abbrev accepts_field : Language → (sh : Shape) (p : Primitive) → Field sh (Scalar p) → Bool
accepts_field introspection_c sh text v = accepts_strings sh v
accepts_field introspection_c sh wide_text v = accepts_strings sh v
accepts_field lang sh p v = true

unfoldable all_of : {A : Type 0} → (A → Bool) → List A → Bool
all_of f [] = true
all_of f (x ∷ xs) = f x && all_of f xs

-- How many messages of an array are written, and whether the array is within its upper bound.
abbrev count_of : Bool → ℕ → ℕ → ℕ
count_of fixed n size = if fixed then n else size

abbrev accepts_count : Bool → Bool → ℕ → ℕ → Bool
accepts_count fixed upper n size = fixed || not upper || leb size n

module _ (lang : Language) where
  -- No type is unknown, the single strings of C are within their bounds, and so are the sequences of
  -- messages. There is no condition on the sequences of other types.
  unfoldable mutual
    unfolding all_of

    pub accepts_member : (sh : Shape) (t : MemberType) → Field sh (Element t) → Bool
    accepts_member sh (primitive p) v = accepts_field lang sh p v
    accepts_member (single bound) (message ms) v = accepts ms v
    accepts_member (array_of n upper) (message ms) vs =
        accepts_count (is_fixed n upper) upper n (length vs)
        && all_of (accepts ms) (take (count_of (is_fixed n upper) n (length vs)) vs)
    accepts_member sh unknown v = false

    pub accepts : (ms : Members) → Message ms → Bool
    accepts no_members m = true
    accepts (member sh t ms) (v, m) = accepts_member sh t v && accepts ms m

within_upper : (upper : Bool) (n size : ℕ) → (not upper || leb size n) ≡ not (upper && ltb n size)
within_upper true n size = ground arith
within_upper false n size = refl

is_some->>= :
    {A B : Type 0} (o : Option A) (f : A → Option B) (b d : Bool)
    → is_some o ≡ b
    → ((a : A) → is_some (f a) ≡ d)
    → is_some (o >>= f) ≡ (b && d)
is_some->>= none f b d h k = ground (arith)
is_some->>= (some a) f b d h k = ground (arith, k a)

module _ (c : Codec) where
  strings_accepted :
      (tx : List ℕ → TxStream → TxStream) (sh : Shape) (v : Field sh (List ℕ)) (s : TxStream)
      → is_some (serialize_strings c tx sh v s) ≡ accepts_strings sh v
  unfolding serialize_strings
  strings_accepted tx (single bound) v s = ground arith
  strings_accepted tx (array_of n upper) v s = ground arith

  field_accepted :
      (lang : Language) (sh : Shape) (p : Primitive) (v : Field sh (Scalar p)) (s : TxStream)
      → is_some (serialize_field c lang sh p v s) ≡ accepts_field lang sh p v
  unfolding serialize_field serialize_u16strings
  field_accepted introspection_c sh text v s = strings_accepted (tx_string c) sh v s
  field_accepted introspection_c sh wide_text v s = strings_accepted (tx_u16string c) sh v s
  field_accepted introspection_c sh p v s = refl
  field_accepted introspection_cpp sh p v s = refl

  each_accepted :
      {A : Type 0} (f : A → TxStream → Option TxStream) (g : A → Bool)
      → ((x : A) (s : TxStream) → is_some (f x s) ≡ g x)
      → (xs : List A) (s : TxStream) → is_some (serialize_each f xs s) ≡ all_of g xs
  unfolding serialize_each all_of
  each_accepted f g h [] s = refl
  each_accepted f g h (x ∷ xs) s =
      is_some->>= (f x s) (serialize_each f xs) (g x) (all_of g xs) (h x s) (each_accepted f g h xs)

  array_accepted :
      {A : Type 0} (f : A → TxStream → Option TxStream) (g : A → Bool)
      → ((x : A) (s : TxStream) → is_some (f x s) ≡ g x)
      → (n : ℕ) (upper : Bool) (xs : List A) (s : TxStream)
      → is_some (
          get_submessage_sequence_serialize c n upper (length xs) s >>= λ p.
          serialize_each f (take p.0 xs) p.1)
        ≡ (accepts_count (is_fixed n upper) upper n (length xs)
            && all_of g (take (count_of (is_fixed n upper) n (length xs)) xs))
  unfolding get_submessage_sequence_serialize
  array_accepted f g h n upper xs s = elim (Bool-cases (is_fixed n upper)) [
    | inl e ↦ rw e (each_accepted f g h (take n xs) s)
    | inr e ↦ elim (Bool-cases (upper && ltb n (length xs))) [
      | inl over ↦ rw (e, over, within_upper upper n (length xs), over) refl
      | inr under ↦
          rw (e, under, within_upper upper n (length xs), under)
            (each_accepted f g h (take (length xs) xs) (tx_uint c (length xs % 2 ^ 32) s))
    ]
  ]

module _ (c : Codec) (lang : Language) where
  mutual
    unfolding serialize_members accepts

    member_accepted :
        (sh : Shape) (t : MemberType) (v : Field sh (Element t)) (s : TxStream)
        → is_some (serialize_member c lang sh t v s) ≡ accepts_member lang sh t v
    member_accepted sh (primitive p) v s = field_accepted c lang sh p v s
    member_accepted (single bound) (message ms) v s =
        members_accepted ms v (serialize_size c (member_count ms) s)
    member_accepted (array_of n upper) (message ms) vs s =
        array_accepted c
          (λ v s'. serialize_members c lang ms v (serialize_size c (member_count ms) s'))
          (accepts lang ms) (λ v s'. members_accepted ms v (serialize_size c (member_count ms) s'))
          n upper vs s
    member_accepted sh unknown v s = refl

    members_accepted :
        (ms : Members) (m : Message ms) (s : TxStream)
        → is_some (serialize_members c lang ms m s) ≡ accepts lang ms m
    members_accepted no_members m s = refl
    members_accepted (member sh t ms) (v, m) s =
        is_some->>= (serialize_member c lang sh t v s) (serialize_members c lang ms m)
          (accepts_member lang sh t v) (accepts lang ms m) (member_accepted sh t v s)
          (members_accepted ms m)

  -- Whether serializeROSmessage throws does not depend on the stream: it does not throw exactly when
  -- no type is unknown, each single string of C is at most one longer than its bound (if it has one)
  -- and each sequence of messages with an upper bound is within it. Sequences of other types are not
  -- tested.
  pub serialize_message-is_some :
      (ms : Members) (m : Message ms) (s : TxStream)
      → is_some (serialize_message c lang ms m s) ≡ accepts lang ms m
  unfolding serialize_message
  serialize_message-is_some ms m s = members_accepted ms m (serialize_size c (member_count ms) s)
