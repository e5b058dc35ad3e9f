-- ===== src/Exchange/Delivery.antt =====
-- A message from rmw_dps_cpp/src/rmw_publish.cpp to rmw_dps_cpp/src/rmw_take.cpp.
use mathlib.Core.List.{append-nil}
use rmw_dps.Prelude.{
  ◌>>=◌, >>=-assoc, ℕ, Bool, true, [], Option, none, some, if◌then◌else◌, ◌≡◌, refl, sym, ◌∙◌, ap,
}
use rmw_dps.Rmw.{Handle, ok}
use rmw_dps.Cbor.Codec.{Codec, Laws, Bytes, dps_ok}
use rmw_dps.Cbor.Tx.{TxStream, new_stream}
use rmw_dps.Messages.Members.{Language, Members, Message}
use rmw_dps.Messages.Valid.{IsMessage}
use rmw_dps.Messages.Serialize.{serialize_ros_message}
use rmw_dps.Messages.Deserialize.{deserialize_ros_message}
use rmw_dps.Messages.Delivered.{deserialize-serialize}
use rmw_dps.Listener.{Listener, on_publication, take_next_data}
use rmw_dps.Exchange.Typed.{Publication, Data, serialize_as, deserialize_as}
use rmw_dps.Exchange.Publish.{
  PublishOutcomes, PublisherTyped, publish, status_ret, serialized, publish_message, rmw_publish,
}
use rmw_dps.Exchange.Take.{
  SubscriberTyped, Outcome, assign_message_info, take_message, take_, rmw_take_with_info,
}

-- Data that is delivered to an empty queue is the next to be taken.
pub next_delivered :
    {D : Type 0} (d : D) (condition : Option ℕ)
    → take_next_data (on_publication d (record { data_ = []; condition = condition })).0
      ≡ (some d, record { data_ = []; condition = condition })
unfolding take_next_data on_publication
next_delivered d none = refl
next_delivered d (some k) = refl

-- All calls of DPS succeed.
abbrev pub accepted : PublishOutcomes
accepted = record { create_event = true; publish_bufs = dps_ok; wait_for_event = dps_ok }

abbrev pub publisher : Language → Handle PublisherTyped
publisher lang = record {
  ours = true;
  data_ = some (record { typesupport_identifier = some lang });
}

abbrev pub subscription : Language → Listener Data → Handle SubscriberTyped
subscription lang q = record {
  ours = true;
  data_ = some (record { listener = q; typesupport_identifier = some lang });
}

-- A message is taken, with its sender.
abbrev pub taken_by : {A : Type 0} → ℕ → Publication → A → Listener Data → Outcome A
taken_by storage p m q = record {
  ret = some ok;
  taken = some true;
  written = some m;
  sender = some (assign_message_info storage p);
  listener = some q;
}

module _ {c : Codec} (l : Laws c) (from to : Language) (ms : Members) where
  -- The bytes of a well-formed message are read back as the message, also in the other language.
  pub deserialize_as-serialized :
      (m : Message ms)
      → IsMessage from ms m
      → IsMessage to ms m
      → (bytes : Bytes) × (serialized c ms (some from) m ≡ some (some bytes))
        × (deserialize_as c ms (some to) bytes ≡ some (some m))
  unfolding serialized serialize_as deserialize_as
  deserialize_as-serialized m h k =
      let (s, e, read) = deserialize-serialize l from to ms m 1024 h k in
      let finish : Bool × TxStream → Option (Option Bytes) =
        λ p. some (if p.0 then some p.1.buffer.written else none) in
      let whole = sym (>>=-assoc (new_stream c 1024) (serialize_ros_message c from ms m) finish) in
      let bytes : deserialize_ros_message c to ms s.buffer.written ≡ some (m, []) =
        rw append-nil at (read []) in
      (s.buffer.written, whole ∙ ap (λ o. o >>= finish) e, rw bytes refl)

  publish_accepted :
      (m : Message ms) (bytes : Bytes)
      → serialized c ms (some from) m ≡ some (some bytes)
      → rmw_publish c ms accepted (some (publisher from)) (some m) ≡ (some ok, some bytes)
  unfolding rmw_publish publish_message publish status_ret
  publish_accepted m bytes e = rw (publish_message, e) refl

  -- Taking from a queue with data.
  take_next :
      (storage : ℕ) (m : Message ms) (p : Publication) (bytes : Bytes) (q q' : Listener Data)
      → take_next_data q ≡ (some (p, bytes), q')
      → deserialize_as c ms (some to) bytes ≡ some (some m)
      → rmw_take_with_info c ms storage (some (subscription to q)) true true true
        ≡ taken_by storage p m q'
  unfolding rmw_take_with_info take_ take_message
  take_next storage m p bytes q q' e back =
      rw (ap (λ r. r.0) e, take_message, back)
        (ap (λ x. record (taken_by storage p m q') { listener = some x }) (ap (λ r. r.1) e))

  -- When DPS accepts the publication, a message that is well formed for the languages of the publisher
  -- and of the subscription is published with RMW_RET_OK, and once
  -- DPS has delivered what was published to a listener with an empty queue, rmw_take_with_info returns
  -- RMW_RET_OK, says that a message is taken, writes that message and the sender of the publication,
  -- and leaves the queue empty again.
  pub rmw_take_with_info-rmw_publish :
      (storage : ℕ) (m : Message ms) (p : Publication) (condition : Option ℕ)
      → IsMessage from ms m
      → IsMessage to ms m
      → (bytes : Bytes) × (rmw_publish c ms accepted (some (publisher from)) (some m)
          ≡ (some ok, some bytes))
        × (rmw_take_with_info c ms storage
              (some (
                subscription to
                  (on_publication (p, bytes) (record { data_ = []; condition = condition })).0))
              true
              true
              true
            ≡ taken_by storage p m (record { data_ = []; condition = condition }))
  rmw_take_with_info-rmw_publish storage m p condition h k =
      let (bytes, e, back) = deserialize_as-serialized m h k in
      (
        bytes,
        publish_accepted m bytes e,
        take_next storage m p bytes _ _ (next_delivered (p, bytes) condition) back,
      )
