-- ===== src/Messages/Languages.antt =====
-- The two languages of introspection in rmw_dps_cpp/include/rmw_dps_cpp/TypeSupport_impl.hpp: what
-- serializeROSmessage writes for C and for C++.
use rmw_dps.Prelude.{
  ◌>>=◌, ℕ, zero, suc, Bool, true, false, List, [], ◌∷◌, Option, some, length, take, take-length,
  map, All, if◌then◌else◌, ◌≡◌, refl, sym, ◌∙◌, ap,
}
use rmw_dps.Cbor.Codec.{Codec}
use rmw_dps.Cbor.Tx.{
  TxStream, serialize_size, tx_bools, tx_vector, tx_string, tx_u16string, encode_sequence,
  serialize_sequence,
}
use rmw_dps.Messages.Members.{
  Language, introspection_c, introspection_cpp, Primitive, boolean, octet, uint8, text, wide_text,
  Shape, single, array_of, MemberType, primitive, message, unknown, Members, no_members, member,
  member_count, is_fixed, until_nul, Scalar, Field, Element, Message,
}
use rmw_dps.Messages.Fields.{
  tx_scalar, tx_sequence_of, tx_vector_of, serialize_field_c, serialize_field_cpp,
  serialize_strings, serialize_u16strings, serialize_field,
}
use rmw_dps.Messages.Serialize.{
  serialize_each, get_submessage_sequence_serialize, serialize_members, serialize_member,
  serialize_message, serialize_any,
}
use rmw_dps.Messages.Valid.{
  HasLength, OnField, IsScalar, IsNulFree, IsCText, IsText, IsMember, IsMembers, IsMessage,
}
use rmw_dps.Cbor.Codec.{Laws}
use rmw_dps.Cbor.Carry.{Carries}
use rmw_dps.Messages.Deserialize.{deserialize_ros_message}
use rmw_dps.Messages.RoundTrip.{carry_message}
use rmw_dps.Messages.Strings.{until_nul-IsNulFree, map-until_nul, within_bound}

All-take {ℓ κ} : {A : Type ℓ} (P : A → Type κ) (n : ℕ) (xs : List A) → All P xs → All P (take n xs)
All-take P zero xs h = tt
All-take P (suc n) [] h = tt
All-take P (suc n) (x ∷ xs) (h, hs) = (h, All-take P n xs hs)

-- Two chains with the same parts.
then_same {ℓ κ} :
    {A : Type ℓ} {B : Type κ} {r r' : Option A}
    → r ≡ r'
    → (f g : A → Option B) → ((x : A) → f x ≡ g x)
    → (r >>= f) ≡ (r' >>= g)
then_same e f g same i = e i >>= λ x. same x i

module _ (c : Codec) where
  vector_as_sequence :
      (p : Primitive) (v : List (Scalar p)) (s : TxStream)
      → tx_sequence_of c p v (length v) s ≡ tx_vector_of c p v s
  unfolding tx_sequence_of tx_vector_of serialize_sequence tx_vector encode_sequence tx_bools
      tx_scalar
  vector_as_sequence boolean v s = rw take-length refl
  vector_as_sequence octet v s = refl
  vector_as_sequence uint8 v s = refl
  vector_as_sequence p v s = refl

  field_c-cpp :
      (sh : Shape) (p : Primitive) (v : Field sh (Scalar p)) (s : TxStream)
      → serialize_field_c c sh p v s ≡ serialize_field_cpp c sh p v s
  unfolding serialize_field_c serialize_field_cpp
  field_c-cpp (single bound) p v s = refl
  field_c-cpp (array_of n upper) p v s = rw (vector_as_sequence p v s) refl

  -- A field of strings, as C++ writes it.
  abbrev text_field :
      (List ℕ → TxStream → TxStream) → (sh : Shape) → Field sh (List ℕ) → TxStream → TxStream
  text_field tx (single bound) v s = tx v s
  text_field tx (array_of n upper) v s =
      if is_fixed n upper then serialize_sequence c tx v n s else tx_vector c tx v s

  array_kept :
      (n : ℕ) (v : List (List ℕ)) → length v ≡ n → All IsNulFree v → map until_nul (take n v) ≡ v
  array_kept n v len free = rw (sym len, take-length) (map-until_nul v free)

  string_array_c-cpp :
      (tx : List ℕ → TxStream → TxStream) (b : Bool) (n : ℕ) (v : List (List ℕ)) (s : TxStream)
      → HasLength b n (length v)
      → All IsNulFree v
      → (if b
          then some (tx_vector c tx (map until_nul (take n v)) s)
          else some (tx_vector c tx (map until_nul v) s))
        ≡ some (if b then serialize_sequence c tx v n s else tx_vector c tx v s)
  unfolding tx_vector serialize_sequence
  string_array_c-cpp tx true n v s len free = rw (array_kept n v len free, sym len) refl
  string_array_c-cpp tx false n v s len free = rw (map-until_nul v free) refl

  -- Strings that are fit for C.
  strings_c-cpp :
      (P : List ℕ → Type 0) (tx : List ℕ → TxStream → TxStream) (sh : Shape) (v : Field sh (List ℕ))
      (s : TxStream)
      → IsCText sh v
      → OnField P sh v
      → serialize_strings c tx sh v s ≡ some (text_field tx sh v s)
  unfolding serialize_strings
  strings_c-cpp P tx (single bound) v s (free, short) h =
      rw (until_nul-IsNulFree v free, within_bound bound (length v) short) refl
  strings_c-cpp P tx (array_of n upper) v s free (len, size, h) =
      string_array_c-cpp tx (is_fixed n upper) n v s len free

  text_field-cpp :
      (sh : Shape) (v : Field sh (List ℕ)) (s : TxStream)
      → text_field (tx_string c) sh v s ≡ serialize_field_cpp c sh text v s
  unfolding serialize_field_cpp tx_scalar tx_sequence_of tx_vector_of
  text_field-cpp (single bound) v s = refl
  text_field-cpp (array_of n upper) v s = refl

  wide_field-cpp :
      (sh : Shape) (v : Field sh (List ℕ)) (s : TxStream)
      → text_field (tx_u16string c) sh v s ≡ serialize_field_cpp c sh wide_text v s
  unfolding serialize_field_cpp tx_scalar tx_sequence_of tx_vector_of
  wide_field-cpp (single bound) v s = refl
  wide_field-cpp (array_of n upper) v s = refl

  serialize_field_c-cpp :
      (sh : Shape) (p : Primitive) (v : Field sh (Scalar p)) (s : TxStream)
      → OnField (IsScalar p) sh v
      → IsText introspection_c sh p v
      → serialize_field c introspection_c sh p v s ≡ serialize_field c introspection_cpp sh p v s
  unfolding serialize_field serialize_u16strings
  serialize_field_c-cpp sh text v s h ht =
      strings_c-cpp (IsScalar text) (tx_string c) sh v s ht h ∙ ap some (text_field-cpp sh v s)
  serialize_field_c-cpp sh wide_text v s h ht =
      strings_c-cpp (IsScalar wide_text) (tx_u16string c) sh v s ht h
      ∙ ap some (wide_field-cpp sh v s)
  serialize_field_c-cpp sh p v s h ht = ap some (field_c-cpp sh p v s)

  each_c-cpp :
      {A : Type 0} (f g : A → TxStream → Option TxStream) (P : A → Type 0)
      → ((x : A) (s : TxStream) → P x → f x s ≡ g x s)
      → (xs : List A) (s : TxStream) → All P xs
      → serialize_each f xs s ≡ serialize_each g xs s
  unfolding serialize_each
  each_c-cpp f g P same [] s h = refl
  each_c-cpp f g P same (x ∷ xs) s (h, hs) =
      then_same (same x s h) (serialize_each f xs) (serialize_each g xs)
        (λ s'. each_c-cpp f g P same xs s' hs)

  mutual
    unfolding serialize_members

    member_c-cpp :
        (sh : Shape) (t : MemberType) (v : Field sh (Element t)) (s : TxStream)
        → IsMember introspection_c sh t v
        → serialize_member c introspection_c sh t v s
          ≡ serialize_member c introspection_cpp sh t v s
    member_c-cpp sh (primitive p) v s h = serialize_field_c-cpp sh p v s h.0 h.1
    member_c-cpp (single bound) (message ms) v s (size, h) =
        members_c-cpp ms v (serialize_size c (member_count ms) s) h
    member_c-cpp (array_of n upper) (message ms) vs s (size, count, h) =
        then_same {r = get_submessage_sequence_serialize c n upper (length vs) s} refl
          (λ p.
            serialize_each
              (λ v s''.
                serialize_members c introspection_c ms v (serialize_size c (member_count ms) s''))
              (take p.0 vs) p.1)
          (λ p.
            serialize_each
              (λ v s''.
                serialize_members c introspection_cpp ms v (serialize_size c (member_count ms) s''))
              (take p.0 vs) p.1)
          (λ p.
            each_c-cpp _ _ (IsMembers introspection_c ms)
              (λ v s'' k. members_c-cpp ms v (serialize_size c (member_count ms) s'') k)
              (take p.0 vs) p.1 (All-take _ p.0 vs h))
    member_c-cpp sh unknown v s h = absurd h

    members_c-cpp :
        (ms : Members) (m : Message ms) (s : TxStream)
        → IsMembers introspection_c ms m
        → serialize_members c introspection_c ms m s ≡ serialize_members c introspection_cpp ms m s
    members_c-cpp no_members m s h = refl
    members_c-cpp (member sh t ms) (v, m) s (h, hs) =
        then_same (member_c-cpp sh t v s h) (serialize_members c introspection_c ms m)
          (serialize_members c introspection_cpp ms m) (λ s'. members_c-cpp ms m s' hs)

  -- A message that is fit for C is written the same from C and from C++.
  any_c-cpp :
      (ms : Members) (m : Message ms) (s : TxStream)
      → IsMessage introspection_c ms m
      → serialize_any c introspection_c ms m s ≡ serialize_any c introspection_cpp ms m s
  unfolding serialize_any serialize_message
  any_c-cpp no_members m s h = refl
  any_c-cpp (member sh t ms) m s h =
      members_c-cpp (member sh t ms) m (serialize_size c (member_count (member sh t ms)) s) h.1

  -- A message that is fit for two languages is written the same from both.
  serialize_any-languages :
      (from to : Language) (ms : Members) (m : Message ms) (s : TxStream)
      → IsMessage from ms m
      → IsMessage to ms m
      → serialize_any c from ms m s ≡ serialize_any c to ms m s
  serialize_any-languages introspection_c introspection_c ms m s h k = refl
  serialize_any-languages introspection_c introspection_cpp ms m s h k = any_c-cpp ms m s h
  serialize_any-languages introspection_cpp introspection_c ms m s h k = sym (any_c-cpp ms m s k)
  serialize_any-languages introspection_cpp introspection_cpp ms m s h k = refl

module _ {c : Codec} (l : Laws c) (from to : Language) where
  -- What one language writes and the other reads.
  pub carry_across :
      (ms : Members) (m : Message ms)
      → IsMessage from ms m
      → IsMessage to ms m
      → Carries l (serialize_any c from ms m) (deserialize_ros_message c to ms) m
  carry_across ms m h k =
      let read_back = carry_message l to ms m k in
      record {
        items = read_back.items;
        sent = λ s. serialize_any-languages c from to ms m s h k ∙ read_back.sent s;
        read = read_back.read;
      }
