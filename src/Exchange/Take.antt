-- ===== src/Exchange/Take.antt =====
-- rmw_dps_cpp/src/rmw_take.cpp. `storage` is RMW_GID_STORAGE_SIZE.
use rmw_dps.Prelude.{
  ℕ, ◌-◌, Bool, true, false, not, [], ◌++◌, Option, none, some, length, ltb, if◌then◌else◌,
}
use rmw_dps.Text.{Text}
use rmw_dps.Rmw.{RmwRet, ok, error, unsupported, Handle}
use rmw_dps.Gids.{Gid, zeros}
use rmw_dps.Listener.{Listener, take_next_data}
use rmw_dps.Cbor.Codec.{Codec, Bytes}
use rmw_dps.Messages.Members.{Language, Members, Message}
use rmw_dps.Exchange.Typed.{Publication, Data, deserialize_as}

-- CustomSubscriberInfo, as far as taking goes.
pub record SubscriberTyped : Type 0 where
  pub listener : Listener Data
  pub typesupport_identifier : Option Language

-- What a call does: the return code, what it writes to `taken`, to the message and to the message
-- information, and the listener afterwards. `none` as the return code is an exception, and `none` for
-- what is written is that it is left as it was.
pub record Outcome (A : Type 0) : Type 0 where
  pub ret : Option RmwRet
  pub taken : Option Bool
  pub written : Option A
  pub sender : Option Gid
  pub listener : Option (Listener Data)

-- rmw_serialized_message_t: its buffer up to buffer_length.
pub record SerializedMessage : Type 0 where
  pub buffer : Bytes
  pub buffer_capacity : ℕ

-- The data that is copied to the front of the identifier.
abbrev pub uuid_bytes : Option Text → Text
uuid_bytes none = []
uuid_bytes (some uuid) = uuid

-- _assign_message_info: the publisher_gid
unfoldable pub assign_message_info : ℕ → Publication → Gid
assign_message_info storage pub_ = record {
  ours = true;
  bytes = uuid_bytes pub_.uuid ++ zeros (storage - length (uuid_bytes pub_.uuid));
}

-- A return before anything is taken.
abbrev pub refused : {A : Type 0} → Option Bool → Option (Listener Data) → Outcome A
refused taken l = record {
  ret = some error;
  taken = taken;
  written = none;
  sender = none;
  listener = l;
}

abbrev pub only_if {ℓ} : {A : Type ℓ} → Bool → A → Option A
only_if b x = if b then some x else none

-- The listener of the data of a handle.
abbrev pub listener_of : Option SubscriberTyped → Option (Listener Data)
listener_of none = none
listener_of (some info) = some info.listener

module _ (c : Codec) (ms : Members) (storage : ℕ) where
  -- The body of the `if` in _take: the data is out of the queue, and the return value of
  -- _deserialize_ros_message is not looked at.
  unfoldable pub take_message : Bool → Option Language → Data → Listener Data → Outcome (Message ms)
  unfolding assign_message_info
  take_message wants_info identifier (pub_, payload) l =
      elim (deserialize_as c ms identifier payload) [
        | none ↦ record {
          ret = none;
          taken = some false;
          written = none;
          sender = none;
          listener = some l;
        }
        | some m ↦ record {
          ret = some ok;
          taken = some true;
          written = m;
          sender = only_if wants_info (assign_message_info storage pub_);
          listener = some l;
        }
      ]

  -- _take
  unfoldable pub take_ : Handle SubscriberTyped → Bool → Outcome (Message ms)
  unfolding take_message
  take_ subscription wants_info =
      if not subscription.ours
      then refused (some false) (listener_of subscription.data_)
      else elim subscription.data_ [
        | none ↦ refused (some false) none
        | some info ↦
            let (next, l) = take_next_data info.listener in
            elim next [
              | none ↦ record {
                ret = some ok;
                taken = some false;
                written = none;
                sender = none;
                listener = some l;
              }
              | some d ↦ take_message wants_info info.typesupport_identifier d l
            ]
      ]

  -- rmw_take: whether ros_message and taken are not null.
  unfoldable pub rmw_take : Option (Handle SubscriberTyped) → Bool → Bool → Outcome (Message ms)
  rmw_take none ros_message taken = refused none none
  rmw_take (some subscription) ros_message taken =
      if not ros_message
      then refused none (listener_of subscription.data_)
      else if not taken
      then refused none (listener_of subscription.data_)
      else take_ subscription false

  -- rmw_take_with_info
  unfoldable pub rmw_take_with_info :
      Option (Handle SubscriberTyped) → Bool → Bool → Bool → Outcome (Message ms)
  rmw_take_with_info none ros_message taken message_info = refused none none
  rmw_take_with_info (some subscription) ros_message taken message_info =
      if not ros_message
      then refused none (listener_of subscription.data_)
      else if not taken
      then refused none (listener_of subscription.data_)
      else if not message_info
      then refused none (listener_of subscription.data_)
      else take_ subscription true

module _ (storage : ℕ) (resize : SerializedMessage → ℕ → RmwRet × SerializedMessage) where
  -- The end of _take_serialized_message: memcpy, and the message information.
  unfoldable pub store_serialized :
      Bool → Data → SerializedMessage → Listener Data → Outcome SerializedMessage
  unfolding assign_message_info
  store_serialized wants_info (pub_, payload) message l = record {
    ret = some ok;
    taken = some true;
    written = some (record message { buffer = payload });
    sender = only_if wants_info (assign_message_info storage pub_);
    listener = some l;
  }

  -- The body of the `if` in _take_serialized_message.
  unfoldable pub take_serialized :
      Bool → Data → SerializedMessage → Listener Data → Outcome SerializedMessage
  unfolding store_serialized
  take_serialized wants_info (pub_, payload) message l =
      if ltb message.buffer_capacity (length payload)
      then (let (r, resized) = resize message (length payload) in
          elim r [
            | ok ↦ store_serialized wants_info (pub_, payload) resized l
            | failure ↦ record {
              ret = some failure;
              taken = some false;
              written = some resized;
              sender = none;
              listener = some l;
            }
          ])
      else store_serialized wants_info (pub_, payload) message l

  -- _take_serialized_message
  unfoldable pub take_serialized_message :
      Handle SubscriberTyped → SerializedMessage → Bool → Outcome SerializedMessage
  unfolding take_serialized
  take_serialized_message subscription message wants_info =
      if not subscription.ours
      then refused (some false) (listener_of subscription.data_)
      else elim subscription.data_ [
        | none ↦ refused (some false) none
        | some info ↦
            let (next, l) = take_next_data info.listener in
            elim next [
              | none ↦ record {
                ret = some ok;
                taken = some false;
                written = none;
                sender = none;
                listener = some l;
              }
              | some d ↦ take_serialized wants_info d message l
            ]
      ]

  -- rmw_take_serialized_message
  unfoldable pub rmw_take_serialized_message :
      Option (Handle SubscriberTyped) → Option SerializedMessage → Bool → Outcome SerializedMessage
  rmw_take_serialized_message none message taken = refused none none
  rmw_take_serialized_message (some subscription) none taken =
      refused none (listener_of subscription.data_)
  rmw_take_serialized_message (some subscription) (some message) taken =
      if not taken
      then refused none (listener_of subscription.data_)
      else take_serialized_message subscription message false

  -- rmw_take_serialized_message_with_info
  unfoldable pub rmw_take_serialized_message_with_info :
      Option (Handle SubscriberTyped)
      → Option SerializedMessage
      → Bool
      → Bool
      → Outcome SerializedMessage
  rmw_take_serialized_message_with_info none message taken message_info = refused none none
  rmw_take_serialized_message_with_info (some subscription) none taken message_info =
      refused none (listener_of subscription.data_)
  rmw_take_serialized_message_with_info (some subscription) (some message) taken message_info =
      if not taken
      then refused none (listener_of subscription.data_)
      else if not message_info
      then refused none (listener_of subscription.data_)
      else take_serialized_message subscription message true

-- rmw_take_event, and the two functions on loaned messages
unfoldable pub rmw_take_event : RmwRet
rmw_take_event = error

unfoldable pub rmw_take_loaned_message : RmwRet
rmw_take_loaned_message = unsupported
