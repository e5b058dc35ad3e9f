-- ===== src/Exchange/Requests/Answers.antt =====
-- A request from the client to the service and its response back: rmw_dps_cpp/src/rmw_request.cpp and
-- rmw_dps_cpp/src/rmw_response.cpp.
use rmw_dps.Prelude.{ℕ, true, [], ◌∷◌, Option, none, some, ◌≡◌, refl, arith}
use rmw_dps.Text.{text_eq_refl}
use rmw_dps.Rmw.{Handle, ok}
use rmw_dps.Cbor.Codec.{Codec, Laws, Bytes, Status}
use rmw_dps.Messages.Members.{Language, Members, Message}
use rmw_dps.Messages.Valid.{IsMessage}
use rmw_dps.Listener.{Listener, on_publication, take_next_data}
use rmw_dps.Exchange.Typed.{Publication, Data, deserialize_as}
use rmw_dps.Exchange.Publish.{publish, serialized, status_ret}
use rmw_dps.Exchange.Delivery.{accepted, deserialize_as-serialized}
use rmw_dps.Exchange.Requests.{
  RequestId, Requests, same_id, find_request, emplace_request, erase_request, ServiceTyped,
  ClientTyped, TakeOutcome, request_header, accept_request, rmw_take_request, accept_response,
  rmw_take_response, rmw_send_request, answer, rmw_send_response,
}

same_id_refl : (id : RequestId) → same_id id id ≡ true
unfolding same_id
same_id_refl id = ground (arith, text_eq_refl id.writer_guid)

-- The queue of a listener that got this data last, and nothing before.
abbrev pub only : Option ℕ → Data → Listener Data
only condition d = (on_publication d (record { data_ = []; condition = condition })).0

abbrev pub emptied : Option ℕ → Listener Data
emptied condition = record { data_ = []; condition = condition }

abbrev pub service : Language → Listener Data → Requests → ServiceTyped
service lang q rs = record { listener = q; requests = rs; typesupport_identifier = some lang }

abbrev pub client : Language → Listener Data → ClientTyped
client lang q = record { listener = q; typesupport_identifier = some lang }

abbrev pub handle_of : {I : Type 0} → I → Handle I
handle_of info = record { ours = true; data_ = some info }

-- What is taken, with its header.
abbrev pub received : {I A : Type 0} → A → RequestId → I → TakeOutcome I A
received m header info = record {
  ret = some ok;
  taken = true;
  written = some m;
  header = some header;
  info = some info;
}

module _ (c : Codec) (lang : Language) (ms : Members) (guid_size : ℕ) where
  sends :
      (next : ℕ) (q : Listener Data) (m : Message ms) (bytes : Bytes)
      → serialized c ms (some lang) m ≡ some (some bytes)
      → rmw_send_request c ms accepted next (handle_of (client lang q)) m
        ≡ (some ok, (some bytes, some next))
  unfolding rmw_send_request publish
  sends next q m bytes e = rw e refl

  accepts_request :
      (rs : Requests) (m : Message ms) (p : Publication) (bytes : Bytes) (q : Listener Data)
      → deserialize_as c ms (some lang) bytes ≡ some (some m)
      → find_request (request_header guid_size p.uuid p.sequence_num) rs ≡ none
      → accept_request c ms guid_size (p, bytes) (service lang q rs)
        ≡ received m
            (request_header guid_size p.uuid p.sequence_num)
            (service lang q ((request_header guid_size p.uuid p.sequence_num, some p) ∷ rs))
  unfolding accept_request
  accepts_request rs m p bytes q e new = rw (accept_request, e, emplace_request, new) refl

  takes_request :
      (condition : Option ℕ) (rs : Requests) (m : Message ms) (p : Publication) (bytes : Bytes)
      → deserialize_as c ms (some lang) bytes ≡ some (some m)
      → find_request (request_header guid_size p.uuid p.sequence_num) rs ≡ none
      → rmw_take_request c ms guid_size (handle_of (service lang (only condition (p, bytes)) rs))
        ≡ received m (request_header guid_size p.uuid p.sequence_num) (
            service lang
              (emptied condition)
              ((request_header guid_size p.uuid p.sequence_num, some p) ∷ rs))
  unfolding rmw_take_request on_publication take_next_data
  takes_request none rs m p bytes e new = accepts_request rs m p bytes (emptied none) e new
  takes_request (some k) rs m p bytes e new = accepts_request rs m p bytes (emptied (some k)) e new

  takes_response :
      (condition : Option ℕ) (m : Message ms) (p : Publication) (bytes : Bytes)
      → deserialize_as c ms (some lang) bytes ≡ some (some m)
      → rmw_take_response c ms guid_size (handle_of (client lang (only condition (p, bytes))))
        ≡ received m
            (request_header guid_size p.uuid p.ack_sequence_num)
            (client lang (emptied condition))
  unfolding rmw_take_response accept_response on_publication take_next_data
  takes_response none m p bytes e = rw (accept_response, e) refl
  takes_response (some k) m p bytes e = rw (accept_response, e) refl

  responds :
      (acknowledge : Option Publication → Bytes → Status) (id : RequestId) (rs : Requests)
      (m : Message ms) (p : Publication) (bytes : Bytes) (q : Listener Data)
      → serialized c ms (some lang) m ≡ some (some bytes)
      → rmw_send_response c ms acknowledge (handle_of (service lang q ((id, some p) ∷ rs))) id m
        ≡ record {
          ret = some (status_ret (acknowledge (some p) bytes));
          acked = some (some p, bytes);
          info = some (service lang q rs);
        }
  unfolding rmw_send_response find_request answer erase_request
  responds acknowledge id rs m p bytes q e = rw (same_id_refl id, answer, e, same_id_refl id) refl

-- A client and a service, each in its language.
module _ {c : Codec} (l : Laws c) (asking serving : Language) (requests responses : Members)
    (guid_size : ℕ) (acknowledge : Option Publication → Bytes → Status) where
  -- A request is answered. For a request and a response that are well formed for the
  -- languages of the client and of the service: rmw_send_request publishes the
  -- request with RMW_RET_OK if DPS accepts it; once it is delivered to a service that has no data and
  -- no request with its header, rmw_take_request returns the request and its header; with that header,
  -- rmw_send_response calls DPS_AckPublication for the request's publication and returns RMW_RET_OK if
  -- that succeeds, and the service has the pending requests of before; and once the response is
  -- delivered to a client that has no data, rmw_take_response returns the response.
  pub request_answered :
      (q : Listener Data) (next : ℕ) (request : Message requests) (response : Message responses)
      (p p' : Publication) (condition condition' : Option ℕ) (rs : Requests)
      → IsMessage asking requests request
      → IsMessage serving requests request
      → IsMessage asking responses response
      → IsMessage serving responses response
      → find_request (request_header guid_size p.uuid p.sequence_num) rs ≡ none
      → let id = request_header guid_size p.uuid p.sequence_num in
        (sent answered : Bytes) × (rmw_send_request c requests accepted next
            (handle_of (client asking q))
            request
          ≡ (some ok, (some sent, some next)))
        × (rmw_take_request c requests guid_size
              (handle_of (service serving (only condition (p, sent)) rs))
            ≡ received request id (service serving (emptied condition) ((id, some p) ∷ rs)))
        × (rmw_send_response c responses acknowledge
              (handle_of (service serving (emptied condition) ((id, some p) ∷ rs)))
              id
              response
            ≡ record {
              ret = some (status_ret (acknowledge (some p) answered));
              acked = some (some p, answered);
              info = some (service serving (emptied condition) rs);
            })
        × (rmw_take_response c responses guid_size
              (handle_of (client asking (only condition' (p', answered))))
            ≡ received response
                (request_header guid_size p'.uuid p'.ack_sequence_num)
                (client asking (emptied condition')))
  request_answered q next request response p p' condition condition' rs h k h' k' new =
      let (sent, e, back) = deserialize_as-serialized l asking serving requests request h k in
      let (answered, e', back') =
        deserialize_as-serialized l serving asking responses response k' h' in
      (
        sent,
        answered,
        sends c asking requests guid_size next q request sent e,
        takes_request c serving requests guid_size condition rs request p sent back new,
        responds c serving responses guid_size acknowledge _ rs response p answered _ e',
        takes_response c asking responses guid_size condition' response p' answered back',
      )
