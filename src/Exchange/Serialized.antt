-- ===== src/Exchange/Serialized.antt =====
-- rmw_dps_cpp/src/rmw_serialize.cpp. `resize` is rmw_serialized_message_resize, and the handle of a type
-- support is whether get_message_typesupport_handle finds that of C, and that of C++, in it.
use rmw_dps.Prelude.{◌>>=◌, ℕ, Bool, true, false, Option, none, some, length, ltb, if◌then◌else◌}
use rmw_dps.Rmw.{RmwRet, ok, error, is_ok}
use rmw_dps.Cbor.Codec.{Codec, Bytes}
use rmw_dps.Cbor.Tx.{new_stream}
use rmw_dps.Messages.Members.{Language, introspection_c, introspection_cpp, Members, Message}
use rmw_dps.Exchange.Typed.{serialize_as, deserialize_as}
use rmw_dps.Exchange.Take.{SerializedMessage}

-- `ts`: the type support of C, or else that of C++.
unfoldable pub typesupport_of : Bool → Bool → Option Language
typesupport_of true found_cpp = some introspection_c
typesupport_of false true = some introspection_cpp
typesupport_of false false = none

-- The return code (`none` for an exception), the message afterwards, and whether the type support that
-- was created is still allocated.
pub record SerializeOutcome : Type 0 where
  pub ret : Option RmwRet
  pub message : SerializedMessage
  pub leaked : Bool

unfoldable pub bool_ret : Bool → RmwRet
bool_ret true = ok
bool_ret false = error

-- memcpy, buffer_length and buffer_capacity, and _delete_typesupport.
unfoldable pub store_bytes : Bool → Bytes → SerializedMessage → SerializeOutcome
unfolding bool_ret
store_bytes done bytes message = record {
  ret = some (bool_ret done);
  message = record message { buffer = bytes; buffer_capacity = length bytes };
  leaked = false;
}

module _ (resize : SerializedMessage → ℕ → RmwRet × SerializedMessage) where
  -- rmw_serialize once the message is serialized.
  unfoldable pub copy_bytes : Bool → Bytes → SerializedMessage → SerializeOutcome
  unfolding store_bytes is_ok
  copy_bytes done bytes message =
      if ltb message.buffer_capacity (length bytes)
      then (let (r, resized) = resize message (length bytes) in
          if is_ok r
          then store_bytes done bytes resized
          else record { ret = some error; message = resized; leaked = true })
      else store_bytes done bytes message

  module _ (c : Codec) (ms : Members) where
    -- _create_message_type_support, and the serialization.
    unfoldable pub serialize_with : Language → Message ms → SerializedMessage → SerializeOutcome
    unfolding copy_bytes
    serialize_with lang m message = elim (new_stream c 1024 >>= serialize_as c ms (some lang) m) [
      | none ↦ record { ret = none; message = message; leaked = true }
      | some (done, ser) ↦ copy_bytes done ser.buffer.written message
    ]

    unfoldable pub rmw_serialize : Bool → Bool → Message ms → SerializedMessage → SerializeOutcome
    unfolding typesupport_of serialize_with
    rmw_serialize found_c found_cpp m message = elim (typesupport_of found_c found_cpp) [
      | none ↦ record { ret = some error; message = message; leaked = false }
      | some lang ↦ serialize_with lang m message
    ]

module _ (c : Codec) (ms : Members) where
  -- rmw_deserialize: the return code and the message that is written, if any.
  unfoldable pub rmw_deserialize :
      Bool → Bool → SerializedMessage → Option RmwRet × Option (Message ms)
  unfolding typesupport_of
  rmw_deserialize found_c found_cpp message = elim (typesupport_of found_c found_cpp) [
    | none ↦ (some error, none)
    | some lang ↦ elim (deserialize_as c ms (some lang) message.buffer) [
      | none ↦ (none, none)
      | some none ↦ (some error, none)
      | some (some m) ↦ (some ok, some m)
    ]
  ]

-- rmw_get_serialized_message_size
unfoldable pub rmw_get_serialized_message_size : RmwRet
rmw_get_serialized_message_size = error
