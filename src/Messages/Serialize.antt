-- ===== src/Messages/Serialize.antt =====
-- serializeROSmessage of rmw_dps_cpp/include/rmw_dps_cpp/TypeSupport_impl.hpp. `none` is an exception.
use Prim.Native.Nat.{◌%◌, ◌^◌}
use rmw_dps.Prelude.{
  ◌>>=◌, ℕ, Bool, true, false, ◌&&◌, List, [], ◌∷◌, Option, none, some, length, take, ltb,
  if◌then◌else◌,
}
use rmw_dps.Cbor.Codec.{Codec, dps_ok, overflow, failed, Status}
use rmw_dps.Cbor.Tx.{TxStream, tx_uint, serialize_size, retry}
use rmw_dps.Messages.Members.{
  Language, Shape, single, array_of, MemberType, primitive, message, unknown, Members, no_members,
  member, member_count, is_fixed, Field, Element, Message,
}
use rmw_dps.Messages.Fields.{serialize_field}

-- One message after another.
unfoldable pub serialize_each :
    {A : Type 0} → (A → TxStream → Option TxStream) → List A → TxStream → Option TxStream
serialize_each f [] s = some s
serialize_each f (x ∷ xs) s = do s' ← f x s; serialize_each f xs s'

unfoldable pub is_ok_status : Status → Bool
is_ok_status dps_ok = true
is_ok_status overflow = false
is_ok_status failed = false

module _ (c : Codec) where
  -- get_submessage_sequence_serialize: the number of messages, and the stream with it. `size` is what
  -- size_function returns.
  unfoldable pub get_submessage_sequence_serialize : ℕ → Bool → ℕ → TxStream → Option (ℕ × TxStream)
  get_submessage_sequence_serialize array_size is_upper_bound size s =
      if is_fixed array_size is_upper_bound
      then some (array_size, s)
      else if is_upper_bound && ltb array_size size
      then none
      else some (size, tx_uint c (size % 2 ^ 32) s)

module _ (c : Codec) (lang : Language) where
  unfoldable mutual
    unfolding serialize_each get_submessage_sequence_serialize

    -- The loop of serializeROSmessage.
    pub serialize_members : (ms : Members) → Message ms → TxStream → Option TxStream
    serialize_members no_members m s = some s
    serialize_members (member sh t ms) (v, m) s = do
      s' ← serialize_member sh t v s
      serialize_members ms m s'

    -- Its switch.
    pub serialize_member :
        (sh : Shape) (t : MemberType) → Field sh (Element t) → TxStream → Option TxStream
    serialize_member sh (primitive p) v s = serialize_field c lang sh p v s
    serialize_member (single bound) (message ms) v s =
        serialize_members ms v (serialize_size c (member_count ms) s)
    serialize_member (array_of n upper) (message ms) vs s = do
      (size, s') ← get_submessage_sequence_serialize c n upper (length vs) s
      serialize_each (λ v s''. serialize_members ms v (serialize_size c (member_count ms) s''))
          (take size vs) s'
    serialize_member sh unknown v s = none

  -- serializeROSmessage(ser, members, ros_message)
  unfoldable pub serialize_message : (ms : Members) → Message ms → TxStream → Option TxStream
  serialize_message ms m s = serialize_members ms m (serialize_size c (member_count ms) s)

  -- What serializeROSmessage(ros_message, ser) writes, at each of its two tries.
  unfoldable pub serialize_any : (ms : Members) → Message ms → TxStream → Option TxStream
  unfolding serialize_message
  serialize_any no_members m s = some (tx_uint c 0 s)
  serialize_any (member sh t ms) m s = serialize_message (member sh t ms) m s

  -- serializeROSmessage(ros_message, ser): whether it succeeds, and the stream.
  unfoldable pub serialize_ros_message :
      (ms : Members) → Message ms → TxStream → Option (Bool × TxStream)
  unfolding serialize_any is_ok_status
  serialize_ros_message ms m ser = do
    first ← serialize_any ms m ser
    last ← retry c first.ret (serialize_any ms m) first
    some (is_ok_status last.ret, last)
