-- ===== src/Messages/Tests.antt =====
-- Runs of the functions on rmw_dps_cpp/include/rmw_dps_cpp/TypeSupport_impl.hpp with a codec of numbers.
use rmw_dps.Prelude.{◌>>=◌, true, false, [], ◌∷◌, ◌++◌, some, is_some, ◌≡◌, arith}
use rmw_dps.Cbor.Codec.{Bytes, negsuc}
use rmw_dps.Cbor.Tx.{TxStream, new_stream}
use rmw_dps.Cbor.Plain.{plain, plain-Laws}
use rmw_dps.Cbor.Buffer.{holding}
use rmw_dps.Messages.Members.{
  introspection_c, introspection_cpp, boolean, uint8, int32, text, wide_text, single, array_of,
  primitive, message, Members, no_members, member, Message, is_fixed, member_count,
}
use rmw_dps.Messages.Valid.{IsMessage}
use rmw_dps.Messages.Serialize.{serialize_message, serialize_ros_message}
use rmw_dps.Messages.Deserialize.{deserialize_ros_message}
use rmw_dps.Messages.Accepts.{accepts, serialize_message-is_some}
use rmw_dps.Messages.Delivered.{deserialize-serialize}

-- A point, with a name of at most three characters.
abbrev point : Members
point =
    member (single 0) (primitive int32)
      (member (single 3) (primitive text) (member (array_of 2 false) (primitive uint8) no_members))

-- A flag, at most two points and a wide string.
abbrev shape : Members
shape =
    member (single 0) (primitive boolean) (
      member (array_of 2 true) (message point) (member (single 0) (primitive wide_text) no_members))

abbrev a_point : Message point
a_point = (negsuc 4, (65 ∷ 66 ∷ [], (7 ∷ 8 ∷ [], tt)))

abbrev a_shape : Message shape
a_shape = (true, (a_point ∷ [], (300 ∷ [], tt)))

a_shape-IsMessage : IsMessage introspection_c shape a_shape
unfolding is_fixed member_count
a_shape-IsMessage = ground arith

a_shape-IsMessage_cpp : IsMessage introspection_cpp shape a_shape
unfolding is_fixed member_count
a_shape-IsMessage_cpp = ground arith

-- The buffer of three bytes overflows, and the second one, which C writes, is read back by C++.
deserialize-serialize_example :
    (s : TxStream) × ((new_stream plain 3
        >>= serialize_ros_message plain introspection_c shape a_shape)
      ≡ some (true, s))
    × ((rest : Bytes)
        → deserialize_ros_message plain introspection_cpp shape (s.buffer.written ++ rest)
          ≡ some (a_shape, rest))
deserialize-serialize_example =
    deserialize-serialize plain-Laws introspection_c introspection_cpp shape a_shape 3
      a_shape-IsMessage a_shape-IsMessage_cpp

-- Three points are too many.
serialize_message-is_some_example :
    is_some (
      serialize_message plain introspection_c shape
        (true, (a_point ∷ a_point ∷ a_point ∷ [], ([], tt)))
        (holding 0 100 []))
    ≡ accepts introspection_c shape (true, (a_point ∷ a_point ∷ a_point ∷ [], ([], tt)))
serialize_message-is_some_example =
    serialize_message-is_some plain introspection_c shape
      (true, (a_point ∷ a_point ∷ a_point ∷ [], ([], tt))) (holding 0 100 [])
