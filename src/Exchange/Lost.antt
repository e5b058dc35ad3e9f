-- ===== src/Exchange/Lost.antt =====
-- The queue behind _take_serialized_message of rmw_dps_cpp/src/rmw_take.cpp.
use rmw_dps.Prelude.{ℕ, Bool, true, ◌||◌, List, ◌∷◌, Option, some, length, leb, ◌≡◌, arith}
use rmw_dps.Rmw.{RmwRet, is_ok}
use rmw_dps.Cbor.Codec.{Bytes}
use rmw_dps.Messages.Members.{Language}
use rmw_dps.Listener.{Listener, take_next_data}
use rmw_dps.Exchange.Typed.{Publication, Data}
use rmw_dps.Exchange.Take.{
  SerializedMessage, Outcome, store_serialized, take_serialized, take_serialized_message,
}

module _ (storage : ℕ) (resize : SerializedMessage → ℕ → RmwRet × SerializedMessage) where
  -- The outcome of a resize, by its return code.
  abbrev Loses : Data → SerializedMessage → Listener Data → Outcome SerializedMessage → Type 0
  Loses d message l o =
      (o.listener ≡ some l)
      × (o.taken
          ≡ some
              (leb (length d.1) message.buffer_capacity || is_ok (resize message (length d.1)).0))

  take_serialized-Loses :
      (wants_info : Bool) (d : Data) (message : SerializedMessage) (l : Listener Data)
      → Loses d message l (take_serialized storage resize wants_info d message l)
  unfolding take_serialized store_serialized is_ok
  take_serialized-Loses wants_info (p, payload) message l = ground (arith)

  -- When there is data, _take_serialized_message takes the first data out of the queue in every case,
  -- also if the buffer cannot be resized; and it says that something is taken exactly if the buffer
  -- is large enough or can be resized. So the data is lost if a resize fails.
  pub take_serialized_message_loses :
      (wants_info : Bool) (p : Publication) (payload : Bytes) (rest : List Data)
      (condition : Option ℕ) (identifier : Option Language) (message : SerializedMessage)
      → let q : Listener Data = record { data_ = (p, payload) ∷ rest; condition = condition } in
        let o =
          take_serialized_message storage resize
            (record {
              ours = true;
              data_ = some (record { listener = q; typesupport_identifier = identifier });
            })
            message
            wants_info in
        (o.listener ≡ some (record { data_ = rest; condition = condition }))
        × (o.taken
            ≡ some (
                leb (length payload) message.buffer_capacity
                || is_ok (resize message (length payload)).0))
  unfolding take_serialized_message take_next_data
  take_serialized_message_loses wants_info p payload rest condition identifier message =
      take_serialized-Loses wants_info (p, payload) message
        (record { data_ = rest; condition = condition })
