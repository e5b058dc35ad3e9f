-- ===== src/Messages/Deserialize.antt =====
-- deserializeROSmessage of rmw_dps_cpp/include/rmw_dps_cpp/TypeSupport_impl.hpp. `none` is an exception
-- or a read past the end of a vector.
use rmw_dps.Prelude.{◌>>=◌, ℕ, Bool, none, some, ◌==◌, if◌then◌else◌}
use rmw_dps.Cbor.Codec.{Codec, Reader}
use rmw_dps.Cbor.Rx.{read_each, rx_uint, deserialize_size}
use rmw_dps.Messages.Members.{
  Language, Shape, single, array_of, MemberType, primitive, message, unknown, Members, no_members,
  member, member_count, is_fixed, Field, Element, Message,
}
use rmw_dps.Messages.Fields.{deserialize_field}

module _ (c : Codec) where
  -- get_submessage_sequence_deserialize: the number of messages.
  unfoldable pub get_submessage_sequence_deserialize : ℕ → Bool → Reader ℕ
  get_submessage_sequence_deserialize array_size is_upper_bound bs =
      if is_fixed array_size is_upper_bound then some (array_size, bs) else rx_uint c 32 bs

  -- The sequence header, which must count the members.
  unfoldable pub check_count : ℕ → Reader ℕ
  check_count n bs = do
    (member_count, rest) ← deserialize_size c bs
    if member_count == n then some (n, rest) else none

module _ (c : Codec) (lang : Language) where
  unfoldable mutual
    unfolding get_submessage_sequence_deserialize check_count

    -- The loop of deserializeROSmessage.
    pub deserialize_members : (ms : Members) → Reader (Message ms)
    deserialize_members no_members bs = some (tt, bs)
    deserialize_members (member sh t ms) bs = do
      (v, bs') ← deserialize_member sh t bs
      (m, rest) ← deserialize_members ms bs'
      some ((v, m), rest)

    -- Its switch.
    pub deserialize_member : (sh : Shape) (t : MemberType) → Reader (Field sh (Element t))
    deserialize_member sh (primitive p) bs = deserialize_field c lang sh p bs
    deserialize_member (single bound) (message ms) bs = do
      (_, bs') ← check_count c (member_count ms) bs
      deserialize_members ms bs'
    deserialize_member (array_of n upper) (message ms) bs = do
      (size, bs') ← get_submessage_sequence_deserialize c n upper bs
      read_each (λ b. check_count c (member_count ms) b >>= λ p. deserialize_members ms p.1) size
          bs'
    deserialize_member sh unknown bs = none

  -- deserializeROSmessage(deser, members, ros_message, call_new)
  unfoldable pub deserialize_message : (ms : Members) → Reader (Message ms)
  deserialize_message ms bs = do
    (_, bs') ← check_count c (member_count ms) bs
    deserialize_members ms bs'

  -- deserializeROSmessage(deser, ros_message)
  unfoldable pub deserialize_ros_message : (ms : Members) → Reader (Message ms)
  unfolding deserialize_message
  deserialize_ros_message no_members bs = do (_, rest) ← rx_uint c 8 bs; some (tt, rest)
  deserialize_ros_message (member sh t ms) bs = deserialize_message (member sh t ms) bs
