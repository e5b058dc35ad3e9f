-- ===== src/Exchange/Kept.antt =====
-- rmw_serialize and rmw_deserialize of rmw_dps_cpp/src/rmw_serialize.cpp, one after the other.
use rmw_dps.Prelude.{
  ◌>>=◌, [], ℕ, Bool, true, false, some, length, ltb, Bool-cases, inl, inr, ◌≡◌, refl,
}
use rmw_dps.Cbor.Tx.{TxStream, new_stream}
use rmw_dps.Messages.Serialize.{serialize_ros_message}
use rmw_dps.Rmw.{RmwRet, ok, is_ok}
use mathlib.Core.List.{append-nil}
use rmw_dps.Cbor.Codec.{Codec, Laws, Bytes}
use rmw_dps.Messages.Members.{Language, Members, Message}
use rmw_dps.Messages.Valid.{IsMessage}
use rmw_dps.Messages.Delivered.{deserialize-serialize}
use rmw_dps.Messages.Deserialize.{deserialize_ros_message}
use rmw_dps.Exchange.Typed.{serialize_as, deserialize_as}
use rmw_dps.Exchange.Take.{SerializedMessage}
use rmw_dps.Exchange.Serialized.{
  SerializeOutcome, typesupport_of, store_bytes, copy_bytes, serialize_with, rmw_serialize,
  rmw_deserialize, bool_ret,
}

module _ (resize : SerializedMessage → ℕ → RmwRet × SerializedMessage) where
  -- What is copied, if the buffer can be resized.
  abbrev Keeps : Bytes → SerializeOutcome → Type 0
  Keeps bytes o =
      (o.ret ≡ some ok)
      × (o.message.buffer ≡ bytes)
      × (o.message.buffer_capacity ≡ length bytes)
      × (o.leaked ≡ false)

  copy_bytes-Keeps :
      (bytes : Bytes) (message : SerializedMessage)
      → (ltb message.buffer_capacity (length bytes) ≡ true → (resize message (length bytes)).0 ≡ ok)
      → Keeps bytes (copy_bytes resize true bytes message)
  unfolding copy_bytes store_bytes bool_ret is_ok
  copy_bytes-Keeps bytes message h =
      elim (Bool-cases (ltb message.buffer_capacity (length bytes))) [
        | inl e ↦ rw (e, h e) (refl, refl, refl, refl)
        | inr e ↦ rw e (refl, refl, refl, refl)
      ]

module _ {c : Codec} (l : Laws c) (ms : Members)
    (resize : SerializedMessage → ℕ → RmwRet × SerializedMessage) where
  -- If the bytes of the message do not fit the buffer, it can be resized to their number.
  abbrev pub Resizes : Language → Message ms → SerializedMessage → Type 0
  Resizes lang m message =
      (s : TxStream)
      → (new_stream c 1024 >>= serialize_ros_message c lang ms m) ≡ some (true, s)
      → ltb message.buffer_capacity (length s.buffer.written) ≡ true
      → (resize message (length s.buffer.written)).0 ≡ ok

  -- The bytes of the stream are copied and read back.
  serialize_with-Keeps :
      (lang : Language) (m : Message ms) (message : SerializedMessage)
      → IsMessage lang ms m
      → Resizes lang m message
      → (bytes : Bytes) × Keeps resize bytes (serialize_with resize c ms lang m message)
        × (deserialize_as c ms (some lang) bytes ≡ some (some m))
  unfolding serialize_with serialize_as deserialize_as
  serialize_with-Keeps lang m message h fits =
      let (s, e, read) = deserialize-serialize l lang lang ms m 1024 h h in
      let back : deserialize_ros_message c lang ms s.buffer.written ≡ some (m, []) =
        rw append-nil at (read []) in
      let whole : serialize_with resize c ms lang m message
          ≡ copy_bytes resize true s.buffer.written message =
        rw (serialize_with, e) refl in
      (
        s.buffer.written,
        rw whole (copy_bytes-Keeps resize s.buffer.written message (fits s e)),
        rw back refl,
      )

  -- If the buffer is large enough or can be resized to what is needed, rmw_serialize of a well-formed message returns RMW_RET_OK and deletes
  -- the type support, and rmw_deserialize of the serialized message returns RMW_RET_OK and the message,
  -- with the type support that is found for both.
  pub rmw_deserialize-rmw_serialize :
      (found_c found_cpp : Bool) (lang : Language) (m : Message ms) (message : SerializedMessage)
      → typesupport_of found_c found_cpp ≡ some lang
      → IsMessage lang ms m
      → Resizes lang m message
      → let o = rmw_serialize resize c ms found_c found_cpp m message in
        (o.ret ≡ some ok)
        × (o.leaked ≡ false)
        × (rmw_deserialize c ms found_c found_cpp o.message ≡ (some ok, some m))
  unfolding rmw_serialize rmw_deserialize
  rmw_deserialize-rmw_serialize found_c found_cpp lang m message e h fits =
      let (bytes, (ret, buffer, capacity, leaked), back) =
        serialize_with-Keeps lang m message h fits in
      let whole : rmw_serialize resize c ms found_c found_cpp m message
          ≡ serialize_with resize c ms lang m message =
        rw (rmw_serialize, e) refl in
      rw whole (ret, leaked, rw (rmw_deserialize, e, buffer, back) refl)
