-- ===== src/Exchange/Typed.antt =====
-- rmw_dps_cpp/src/ros_message_serialization.cpp, and the received publications of
-- rmw_dps_cpp/include/rmw_dps_cpp/Listener.hpp. A type support identifier is `none` if it is neither
-- that of C nor that of C++. `none` as a result is an exception or a failed assertion.
use rmw_dps.Prelude.{◌>>=◌, ℕ, Bool, false, Option, none, some}
use rmw_dps.Text.{Text}
use rmw_dps.Cbor.Codec.{Codec, Bytes}
use rmw_dps.Cbor.Tx.{TxStream}
use rmw_dps.Messages.Members.{Language, Members, Message}
use rmw_dps.Messages.Serialize.{serialize_ros_message}
use rmw_dps.Messages.Deserialize.{deserialize_ros_message}

-- A copied DPS_Publication: DPS_PublicationGetUUID, if there is one, DPS_PublicationGetSequenceNum,
-- and DPS_AckGetSequenceNum of an acknowledgement.
pub record Publication : Type 0 where
  pub uuid : Option Text
  pub sequence_num : ℕ
  pub ack_sequence_num : ℕ

-- Listener::Data
abbrev pub Data : Type 0
Data = Publication × Bytes

module _ (c : Codec) (ms : Members) where
  -- _serialize_ros_message: whether it succeeds, and the stream.
  unfoldable pub serialize_as : Option Language → Message ms → TxStream → Option (Bool × TxStream)
  serialize_as none m ser = some (false, ser)
  serialize_as (some lang) m ser = serialize_ros_message c lang ms m ser

  -- _deserialize_ros_message: the message, if the identifier is known.
  unfoldable pub deserialize_as : Option Language → Bytes → Option (Option (Message ms))
  deserialize_as none bs = some none
  deserialize_as (some lang) bs = do (m, rest) ← deserialize_ros_message c lang ms bs; some (some m)
