-- ===== src/Exchange/Requests.antt =====
-- rmw_dps_cpp/src/rmw_request.cpp and rmw_dps_cpp/src/rmw_response.cpp, with the pending requests of
-- rmw_dps_cpp/include/rmw_dps_cpp/custom_service_info.hpp. What is asserted not to be null is taken to
-- be there; `none` as a return code is an exception or a failed assertion. `guid_size` is the size of
-- writer_guid.
pub mod Pending
pub mod Answers
use rmw_dps.Prelude.{
  ℕ, ◌-◌, Bool, true, false, not, ◌&&◌, List, [], ◌∷◌, ◌++◌, Option, none, some, length, ◌==◌,
  is_some, if◌then◌else◌,
}
use rmw_dps.Text.{Text, text_eq}
use rmw_dps.Rmw.{RmwRet, ok, error, Handle}
use rmw_dps.Gids.{zeros}
use rmw_dps.Listener.{Listener, take_next_data}
use rmw_dps.Cbor.Codec.{Codec, Bytes, Status, dps_ok, overflow, failed}
use rmw_dps.Messages.Members.{Language, Members, Message}
use rmw_dps.Exchange.Typed.{Publication, Data, deserialize_as}
use rmw_dps.Exchange.Publish.{PublishOutcomes, publish, serialized, status_ret}

-- rmw_request_id_t
pub record RequestId : Type 0 where
  pub writer_guid : Text
  pub sequence_number : ℕ

-- requests_: a publication that has been moved from is `none`. Only find, emplace and erase are called,
-- so the order of the map does not matter.
abbrev pub Requests : Type 0
Requests = List (RequestId × Option Publication)

-- Neither memcmp(&lhs, &rhs, …) < 0 nor the converse.
unfoldable pub same_id : RequestId → RequestId → Bool
same_id a b = text_eq a.writer_guid b.writer_guid && a.sequence_number == b.sequence_number

unfoldable pub find_request : RequestId → Requests → Option (Option Publication)
unfolding same_id
find_request id [] = none
find_request id ((k, p) ∷ rs) =
    let rest = find_request id rs in if same_id k id then some p else rest

-- emplace, which keeps what is there
unfoldable pub emplace_request : RequestId → Publication → Requests → Requests
unfolding find_request
emplace_request id p rs = if is_some (find_request id rs) then rs else (id, some p) ∷ rs

unfoldable pub erase_request : RequestId → Requests → Requests
unfolding same_id
erase_request id [] = []
erase_request id ((k, p) ∷ rs) =
    let rest = erase_request id rs in if same_id k id then rs else (k, p) ∷ rest

-- std::move(request->second)
unfoldable pub move_request : RequestId → Requests → Requests
unfolding same_id
move_request id [] = []
move_request id ((k, p) ∷ rs) =
    let rest = move_request id rs in if same_id k id then (k, none) ∷ rs else (k, p) ∷ rest

-- CustomServiceInfo, as far as requests and responses go.
pub record ServiceTyped : Type 0 where
  pub listener : Listener Data
  pub requests : Requests
  pub typesupport_identifier : Option Language

-- CustomClientInfo, likewise.
pub record ClientTyped : Type 0 where
  pub listener : Listener Data
  pub typesupport_identifier : Option Language

-- What a take does: the return code, `*taken`, the message and the header if they are written, and the
-- data of the handle afterwards.
pub record TakeOutcome (I A : Type 0) : Type 0 where
  pub ret : Option RmwRet
  pub taken : Bool
  pub written : Option A
  pub header : Option RequestId
  pub info : Option I

-- The header of a publication: the bytes of its UUID, if there is one, then zeros.
unfoldable pub request_header : ℕ → Option Text → ℕ → RequestId
request_header guid_size none n = record { writer_guid = zeros guid_size; sequence_number = n }
request_header guid_size (some uuid) n = record {
  writer_guid = uuid ++ zeros (guid_size - length uuid);
  sequence_number = n;
}

abbrev nothing_taken : {I A : Type 0} → Option RmwRet → Option I → TakeOutcome I A
nothing_taken ret info = record {
  ret = ret;
  taken = false;
  written = none;
  header = none;
  info = info;
}

module _ (c : Codec) (ms : Members) (guid_size : ℕ) where
  -- The body of the `if` in rmw_take_request; `info` is without the data.
  unfoldable pub accept_request : Data → ServiceTyped → TakeOutcome ServiceTyped (Message ms)
  unfolding request_header emplace_request
  accept_request (pub_, payload) info =
      elim (deserialize_as c ms info.typesupport_identifier payload) [
        | none ↦ nothing_taken none (some info)
        | some m ↦
            let header = request_header guid_size pub_.uuid pub_.sequence_num in
            record {
              ret = some ok;
              taken = true;
              written = m;
              header = some header;
              info = some (record info { requests = emplace_request header pub_ info.requests });
            }
      ]

  unfoldable pub rmw_take_request : Handle ServiceTyped → TakeOutcome ServiceTyped (Message ms)
  unfolding accept_request
  rmw_take_request service =
      if not service.ours then nothing_taken (some error) service.data_ else elim service.data_ [
        | none ↦ nothing_taken none none
        | some info ↦
            let (next, l) = take_next_data info.listener in
            elim next [
              | none ↦ nothing_taken (some ok) (some info)
              | some d ↦ accept_request d (record info { listener = l })
            ]
      ]

  -- The body of the `if` in rmw_take_response.
  unfoldable pub accept_response : Data → ClientTyped → TakeOutcome ClientTyped (Message ms)
  unfolding request_header
  accept_response (pub_, payload) info =
      elim (deserialize_as c ms info.typesupport_identifier payload) [
        | none ↦ nothing_taken none (some info)
        | some m ↦ record {
          ret = some ok;
          taken = true;
          written = m;
          header = some (request_header guid_size pub_.uuid pub_.ack_sequence_num);
          info = some info;
        }
      ]

  unfoldable pub rmw_take_response : Handle ClientTyped → TakeOutcome ClientTyped (Message ms)
  unfolding accept_response
  rmw_take_response client =
      if not client.ours then nothing_taken (some error) client.data_ else elim client.data_ [
        | none ↦ nothing_taken none none
        | some info ↦
            let (next, l) = take_next_data info.listener in
            elim next [
              | none ↦ nothing_taken (some ok) (some info)
              | some d ↦ accept_response d (record info { listener = l })
            ]
      ]

module _ (c : Codec) (ms : Members) where
  -- rmw_send_request: the return code, what is handed to DPS, and the sequence number if it is written.
  -- `next` is what DPS_PublicationGetSequenceNum returns.
  unfoldable pub rmw_send_request :
      PublishOutcomes
      → ℕ
      → Handle ClientTyped
      → Message ms
      → Option RmwRet × (Option Bytes × Option ℕ)
  unfolding serialized publish
  rmw_send_request outcomes next client m =
      if not client.ours then (some error, (none, none)) else elim client.data_ [
        | none ↦ (none, (none, none))
        | some info ↦ elim (serialized c ms info.typesupport_identifier m) [
          | none ↦ (none, (none, none))
          | some none ↦ (some error, (none, none))
          | some (some bytes) ↦
              let (status, sent) = publish outcomes bytes in
              elim status [ dps_ok ↦ (some ok, (sent, some next)) | _ ↦ (some error, (sent, none)) ]
        ]
      ]

-- What rmw_send_response does: the return code, what DPS_AckPublication is called with, if it is
-- called, and the data of the service afterwards.
pub record SendOutcome : Type 0 where
  pub ret : Option RmwRet
  pub acked : Option (Option Publication × Bytes)
  pub info : Option ServiceTyped

-- `acknowledge` is what DPS_AckPublication returns.
module _ (c : Codec) (ms : Members) (acknowledge : Option Publication → Bytes → Status) where
  -- rmw_send_response from the test of `request` on.
  unfoldable pub answer :
      RequestId → Message ms → Option (Option Publication) → ServiceTyped → SendOutcome
  unfolding serialized erase_request move_request
  answer id m none info = record { ret = some error; acked = none; info = some info }
  answer id m (some p) info =
      let erased = record info { requests = erase_request id info.requests } in
      elim (serialized c ms info.typesupport_identifier m) [
        | none ↦ record {
          ret = none;
          acked = none;
          info = some (record info { requests = move_request id info.requests });
        }
        | some none ↦ record { ret = some error; acked = none; info = some erased }
        | some (some bytes) ↦ record {
          ret = some (status_ret (acknowledge p bytes));
          acked = some (p, bytes);
          info = some erased;
        }
      ]

  unfoldable pub rmw_send_response : Handle ServiceTyped → RequestId → Message ms → SendOutcome
  unfolding find_request answer
  rmw_send_response service id m =
      if not service.ours
      then record { ret = some error; acked = none; info = service.data_ }
      else elim service.data_ [
        | none ↦ record { ret = none; acked = none; info = none }
        | some info ↦ answer id m (find_request id info.requests) info
      ]
