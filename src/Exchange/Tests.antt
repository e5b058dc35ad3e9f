-- ===== src/Exchange/Tests.antt =====
-- Runs of the functions on rmw_dps_cpp/src/rmw_publish.cpp, rmw_dps_cpp/src/rmw_take.cpp,
-- rmw_dps_cpp/src/rmw_request.cpp and rmw_dps_cpp/src/rmw_response.cpp.
use rmw_dps.Prelude.{
  ltb, ◌==◌, if◌then◌else◌, ℕ, ◌+◌, ◌≤◌, true, false, ◌||◌, leb, List, [], ◌∷◌, none, some, ◌≡◌,
  refl, arith,
}
use rmw_dps.Rmw.{RmwRet, ok, error, is_ok}
use rmw_dps.Cbor.Codec.{Bytes, pos, dps_ok}
use rmw_dps.Cbor.Plain.{plain, plain-Laws}
use rmw_dps.Messages.Members.{
  introspection_c, introspection_cpp, Members, Message, no_members, member, single, primitive,
  int32, text, member_count,
}
use rmw_dps.Messages.Valid.{IsMessage}
use rmw_dps.Listener.{Listener, on_publication}
use rmw_dps.Exchange.Typed.{Publication, Data}
use rmw_dps.Exchange.Publish.{rmw_publish, status_ret}
use rmw_dps.Exchange.Take.{SerializedMessage, rmw_take_with_info, take_serialized_message}
use rmw_dps.Exchange.Delivery.{
  accepted, publisher, subscription, taken_by, rmw_take_with_info-rmw_publish,
}
use rmw_dps.Exchange.Serialized.{typesupport_of, rmw_serialize, rmw_deserialize}
use rmw_dps.Exchange.Kept.{rmw_deserialize-rmw_serialize}
use rmw_dps.Exchange.Lost.{take_serialized_message_loses}
use rmw_dps.Exchange.Requests.{
  find_request, request_header, rmw_send_request, rmw_take_request, rmw_send_response,
  rmw_take_response,
}
use rmw_dps.Exchange.Requests.Answers.{
  only, emptied, service, client, handle_of, received, request_answered,
}
use rmw_dps.Exchange.Requests.Pending.{
  Call, delivered, take_request, send_response, live, taken, acked, after_calls, acked-le-taken,
}

abbrev greeting : Members
greeting = member (single 0) (primitive int32) (member (single 0) (primitive text) no_members)

abbrev hello : Message greeting
hello = (pos 3, (104 ∷ 105 ∷ [], tt))

hello-IsMessage : IsMessage introspection_cpp greeting hello
unfolding member_count
hello-IsMessage = ground arith

hello-IsMessage_c : IsMessage introspection_c greeting hello
unfolding member_count
hello-IsMessage_c = ground arith

abbrev sender : Publication
sender = record { uuid = some (1 ∷ 2 ∷ []); sequence_num = 7; ack_sequence_num = 0 }

rmw_take_with_info-rmw_publish_example :
    (bytes : Bytes) × (rmw_publish plain greeting accepted
        (some (publisher introspection_c))
        (some hello)
      ≡ (some ok, some bytes))
    × (rmw_take_with_info plain greeting 4
          (some (
            subscription introspection_cpp
              (on_publication (sender, bytes) (record { data_ = []; condition = some 9 })).0))
          true
          true
          true
        ≡ taken_by 4 sender hello (record { data_ = []; condition = some 9 }))
rmw_take_with_info-rmw_publish_example =
    rmw_take_with_info-rmw_publish plain-Laws introspection_c introspection_cpp greeting 4 hello
      sender (some 9) hello-IsMessage_c hello-IsMessage

-- The buffer is too small, and cannot be resized: the first data is lost.
take_serialized_message_loses_example :
    let q : Listener Data = record {
      data_ = (sender, 1 ∷ 2 ∷ []) ∷ (sender, 3 ∷ []) ∷ [];
      condition = none;
    } in
    let o =
      take_serialized_message 4
        (λ message n. (error, message))
        (record {
          ours = true;
          data_ = some (record { listener = q; typesupport_identifier = none });
        })
        (record { buffer = []; buffer_capacity = 1 })
        false in
    (o.listener ≡ some (record { data_ = (sender, 3 ∷ []) ∷ []; condition = none }))
    × (o.taken ≡ some (leb 2 1 || is_ok error))
take_serialized_message_loses_example =
    take_serialized_message_loses 4 (λ message n. (error, message)) false sender (1 ∷ 2 ∷ [])
      ((sender, 3 ∷ []) ∷ []) none none (record { buffer = []; buffer_capacity = 1 })

abbrev receipt : Publication
receipt = record { uuid = some (5 ∷ []); sequence_num = 0; ack_sequence_num = 7 }

request_answered_example :
    let id = request_header 4 sender.uuid 7 in
    (sent answered : Bytes) × (rmw_send_request plain greeting accepted 7
        (handle_of (client introspection_cpp (emptied none)))
        hello
      ≡ (some ok, (some sent, some 7)))
    × (rmw_take_request plain greeting 4
          (handle_of (service introspection_c (only (some 9) (sender, sent)) []))
        ≡ received hello id (service introspection_c (emptied (some 9)) ((id, some sender) ∷ [])))
    × (rmw_send_response plain greeting
          (λ p bytes. dps_ok)
          (handle_of (service introspection_c (emptied (some 9)) ((id, some sender) ∷ [])))
          id
          hello
        ≡ record {
          ret = some ok;
          acked = some (some sender, answered);
          info = some (service introspection_c (emptied (some 9)) []);
        })
    × (rmw_take_response plain greeting 4
          (handle_of (client introspection_cpp (only none (receipt, answered))))
        ≡ received hello
            (request_header 4 receipt.uuid 7)
            (client introspection_cpp (emptied none)))
unfolding find_request status_ret
request_answered_example =
    request_answered plain-Laws introspection_cpp introspection_c greeting greeting 4
      (λ p bytes. dps_ok) (emptied none) 7 hello hello sender receipt (some 9) none []
      hello-IsMessage hello-IsMessage_c hello-IsMessage hello-IsMessage_c refl

-- A request is taken and answered twice: the second answer finds nothing.
abbrev calls : List (Call (Message greeting))
calls =
    let id = request_header 4 sender.uuid 7 in
    delivered (sender, 6 ∷ 2 ∷ 0 ∷ 3 ∷ 4 ∷ 0 ∷ [])
    ∷ take_request
    ∷ send_response id hello
    ∷ send_response id hello
    ∷ []

acked-le-taken_example :
    let id = request_header 4 sender.uuid 7 in
    let start = service introspection_cpp (emptied none) [] in
    acked plain greeting greeting 4 (λ p bytes. dps_ok) id calls start
      + live id (after_calls plain greeting greeting 4 (λ p bytes. dps_ok) calls start).requests
    ≤ taken plain greeting greeting 4 (λ p bytes. dps_ok) id calls start + live id start.requests
acked-le-taken_example =
    acked-le-taken plain greeting greeting 4 (λ p bytes. dps_ok) (request_header 4 sender.uuid 7)
      calls (service introspection_cpp (emptied none) [])

abbrev resized : SerializedMessage → ℕ → RmwRet × SerializedMessage
resized message n =
    if n == 0 then (error, message) else (ok, record message { buffer_capacity = n })

resized_lem : (message : SerializedMessage) (n : ℕ) → ltb 0 n ≡ true → (resized message n).0 ≡ ok
resized_lem message n h = ground (arith, h)

-- A buffer without capacity, and a resize that fails for no bytes only.
rmw_deserialize-rmw_serialize_example :
    let o =
      rmw_serialize resized plain greeting false true hello
        (record { buffer = []; buffer_capacity = 0 }) in
    (o.ret ≡ some ok)
    × (o.leaked ≡ false)
    × (rmw_deserialize plain greeting false true o.message ≡ (some ok, some hello))
unfolding typesupport_of
rmw_deserialize-rmw_serialize_example =
    rmw_deserialize-rmw_serialize plain-Laws greeting resized false true introspection_cpp hello
      (record { buffer = []; buffer_capacity = 0 }) refl hello-IsMessage
      (λ s e small. resized_lem (record { buffer = []; buffer_capacity = 0 }) _ small)
