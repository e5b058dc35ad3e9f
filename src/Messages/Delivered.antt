-- ===== src/Messages/Delivered.antt =====
-- A message from one end to the other: serializeROSmessage(ros_message, ser) and
-- deserializeROSmessage(deser, ros_message) of
-- rmw_dps_cpp/include/rmw_dps_cpp/TypeSupport_impl.hpp.
use rmw_dps.Prelude.{
  ◌>>=◌, ℕ, ◌≤◌, Bool, true, ◌++◌, Option, some, length, ◌≡◌, sym, ◌∙◌, ap, >>=-assoc,
}
use rmw_dps.Cbor.Codec.{Codec, Laws, Bytes}
use rmw_dps.Cbor.Tx.{TxStream, new_stream, retry}
use rmw_dps.Cbor.Retry.{retry-Carries}
use rmw_dps.Cbor.Buffer.{holding, total, wires}
use rmw_dps.Messages.Members.{Language, Members, Message}
use rmw_dps.Messages.Serialize.{serialize_ros_message, serialize_any, is_ok_status}
use rmw_dps.Messages.Deserialize.{deserialize_ros_message}
use rmw_dps.Messages.Valid.{IsMessage}
use rmw_dps.Messages.Languages.{carry_across}

module _ {c : Codec} (l : Laws c) (from to : Language) where
  serialize_ros_message-holding :
      (ms : Members) (m : Message ms) (hint : ℕ)
      → (h : IsMessage from ms m) → (k : IsMessage to ms m)
      → (limit : ℕ) × ((new_stream c hint >>= serialize_ros_message c from ms m)
          ≡ some (
            true,
            holding
                (total c (carry_across l from to ms m h k).items)
                limit
                (wires c l (carry_across l from to ms m h k).items),
          ))
        × (length (wires c l (carry_across l from to ms m h k).items) ≤ limit)
  unfolding serialize_ros_message is_ok_status
  serialize_ros_message-holding ms m hint h k =
      let (limit, e, fits) =
        retry-Carries l (serialize_any c from ms m) (deserialize_ros_message c to ms) m hint
          (carry_across l from to ms m h k) in
      let write = serialize_any c from ms m in
      let again : TxStream → Option TxStream = λ s. retry c s.ret write s in
      let last : TxStream → Option (Bool × TxStream) = λ s. some (is_ok_status s.ret, s) in
      let whole = sym (>>=-assoc (new_stream c hint) write (λ s. again s >>= last)) in
      let parts = sym (>>=-assoc (new_stream c hint >>= write) again last) in
      (limit, whole ∙ parts ∙ ap (λ o. o >>= last) e, fits)

  -- A message that is well formed for the language of the sender and for that of the receiver is
  -- serialized with the type support of the sender, whatever the first size of the buffer, and what is
  -- in the buffer is read back with the type support of the receiver as the message, with the bytes
  -- that follow it left over.
  pub deserialize-serialize :
      (ms : Members) (m : Message ms) (hint : ℕ)
      → IsMessage from ms m
      → IsMessage to ms m
      → (s : TxStream) × ((new_stream c hint >>= serialize_ros_message c from ms m)
          ≡ some (true, s))
        × ((rest : Bytes)
            → deserialize_ros_message c to ms (s.buffer.written ++ rest) ≡ some (m, rest))
  deserialize-serialize ms m hint h k =
      let sent = carry_across l from to ms m h k in
      let (limit, e, fits) = serialize_ros_message-holding ms m hint h k in
      (holding (total c sent.items) limit (wires c l sent.items), e, sent.read)
