-- ===== src/Messages/RoundTrip.antt =====
-- The messages that rmw_dps_cpp/include/rmw_dps_cpp/TypeSupport_impl.hpp serializes, and how they are
-- read back.
use Prim.Native.Nat.{◌%◌, ◌^◌}
use rmw_dps.Prelude.{
  ◌>>=◌, ℕ, Bool, true, false, ◌&&◌, List, [], ◌∷◌, Option, some, length, All, Bool-cases, inl, inr,
  All-imp, ◌≡◌, refl, sym, arith, take, take-length, ltb,
}
use rmw_dps.Cbor.Codec.{Codec, Laws, Reader, IsSize, IsUint, IsWidth, array}
use rmw_dps.Cbor.Tx.{TxStream, serialize_size}
use rmw_dps.Cbor.Rx.{read_each, deserialize_size}
use rmw_dps.Cbor.Carry.{
  Carries, Sends, carry_nothing, carry_then, carry_map, carry_item, carry_uint, ==-self,
}
use rmw_dps.Messages.Members.{
  Language, Shape, single, array_of, MemberType, primitive, message, unknown, Members, no_members,
  member, member_count, is_fixed, Field, Element, Message,
}
use rmw_dps.Messages.Serialize.{
  serialize_each, get_submessage_sequence_serialize, serialize_members, serialize_member,
  serialize_message, serialize_any,
}
use rmw_dps.Messages.Deserialize.{
  get_submessage_sequence_deserialize, check_count, deserialize_members, deserialize_member,
  deserialize_message, deserialize_ros_message,
}
use rmw_dps.Messages.Valid.{HasCount, IsBounded, IsMember, IsMembers, IsMessage}
use rmw_dps.Messages.Strings.{carry_field}

width32 : IsWidth 32
width32 = omega arith

within : (upper : Bool) (n size : ℕ) → IsBounded upper n size → (upper && ltb n size) ≡ false
within true n size h = ground arith
within false n size h = refl

module _ {c : Codec} (l : Laws c) where
  carry_all :
      {A : Type 0} (f : A → TxStream → Option TxStream) (r : Reader A) (xs : List A)
      → All (λ x. Carries l (f x) r x) xs
      → Carries l (serialize_each f xs) (read_each r (length xs)) xs
  unfolding serialize_each read_each
  carry_all f r [] h = carry_nothing l []
  carry_all f r (x ∷ xs) (h, hs) =
      carry_then l (λ y bs. read_each r (length xs) bs >>= λ p. some (y ∷ p.0, p.1)) h
        (carry_map l (◌∷◌ x) (carry_all f r xs hs))

  carry_count : (n : ℕ) → IsSize n → Sends l (serialize_size c n) (check_count c n) n
  unfolding serialize_size check_count deserialize_size
  carry_count n size =
      carry_item l (check_count c n) (array n)
        (λ rest. rw (l.read_array n rest size, ==-self n) refl)

  -- An array of messages, after its number of messages if it is not fixed.
  carry_messages :
      {A : Type 0} (n : ℕ) (upper : Bool) (f : A → TxStream → Option TxStream) (r : Reader A)
      (xs : List A)
      → HasCount (is_fixed n upper) upper n (length xs)
      → All (λ x. Carries l (f x) r x) xs
      → Carries l
          (λ s. get_submessage_sequence_serialize c n upper (length xs) s >>= λ p.
            serialize_each f (take p.0 xs) p.1)
          (λ bs. get_submessage_sequence_deserialize c n upper bs >>= λ p. read_each r p.0 p.1)
          xs
  unfolding get_submessage_sequence_serialize get_submessage_sequence_deserialize
  carry_messages n upper f r xs h hs =
      let k : Carries l (serialize_each f xs) (read_each r (length xs)) xs = carry_all f r xs hs in
      elim (Bool-cases (is_fixed n upper)) [
        | inl e ↦
            let len : length xs ≡ n = rw e at h in
            record {
              items = k.items;
              sent = λ s. rw (e, sym len, take-length) (k.sent s);
              read = λ rest. rw (e, sym len) (k.read rest);
            }
        | inr e ↦
            let count : IsUint 32 (length xs) × IsBounded upper n (length xs) = rw e at h in
            let small : length xs % 2 ^ 32 ≡ length xs = omega (arith, count.0) in
            let all = carry_then l (read_each r) (carry_uint l 32 (length xs) width32 count.0) k in
            record {
              items = all.items;
              sent =
                  λ s. rw (e, within upper n (length xs) count.1, small, take-length) (all.sent s);
              read = λ rest. rw e (all.read rest);
            }
      ]

module _ {c : Codec} (l : Laws c) (lang : Language) where
  mutual
    unfolding serialize_members deserialize_members

    carry_member :
        (sh : Shape) (t : MemberType) (v : Field sh (Element t))
        → IsMember lang sh t v
        → Carries l (serialize_member c lang sh t v) (deserialize_member c lang sh t) v
    carry_member sh (primitive p) v h = carry_field l lang sh p v h.0 h.1
    carry_member (single bound) (message ms) v (size, h) =
        carry_then l (λ n. deserialize_members c lang ms) (carry_count l (member_count ms) size)
          (carry_members ms v h)
    carry_member (array_of n upper) (message ms) vs (size, count, h) =
        carry_messages l n upper
          (λ v s. serialize_members c lang ms v (serialize_size c (member_count ms) s))
          (λ b. check_count c (member_count ms) b >>= λ p. deserialize_members c lang ms p.1) vs
          count
          (All-imp _ _ vs
            (λ v k.
              carry_then l (λ n. deserialize_members c lang ms)
                (carry_count l (member_count ms) size) (carry_members ms v k))
            h)
    carry_member sh unknown v h = absurd h

    carry_members :
        (ms : Members) (m : Message ms)
        → IsMembers lang ms m
        → Carries l (serialize_members c lang ms m) (deserialize_members c lang ms) m
    carry_members no_members m h = carry_nothing l tt
    carry_members (member sh t ms) (v, m) (h, hs) =
        carry_then l (λ w bs. deserialize_members c lang ms bs >>= λ p. some ((w, p.0), p.1))
          (carry_member sh t v h) (carry_map l (λ w. (v, w)) (carry_members ms m hs))

  pub carry_message :
      (ms : Members) (m : Message ms)
      → IsMessage lang ms m
      → Carries l (serialize_any c lang ms m) (deserialize_ros_message c lang ms) m
  unfolding serialize_any deserialize_ros_message serialize_message deserialize_message
  carry_message no_members m h =
      carry_map l (λ n. tt) (carry_uint l 8 0 (omega arith) (omega arith))
  carry_message (member sh t ms) m (size, h) =
      carry_then l (λ n. deserialize_members c lang (member sh t ms))
        (carry_count l (member_count (member sh t ms)) size) (carry_members (member sh t ms) m h)
