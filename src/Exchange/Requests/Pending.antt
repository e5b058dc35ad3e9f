-- ===== src/Exchange/Requests/Pending.antt =====
-- The pending requests of a service: requests_ in rmw_dps_cpp/src/rmw_request.cpp and
-- rmw_dps_cpp/src/rmw_response.cpp.
use rmw_dps.Prelude.{
  ℕ, ◌+◌, ◌≤◌, true, List, [], ◌∷◌, Option, none, some, if◌then◌else◌, ◌≡◌, refl, arith,
  Option-cases, inl, inr,
}
use rmw_dps.Text.{text_eq→eq}
use rmw_dps.Rmw.{Handle}
use rmw_dps.Cbor.Codec.{Codec, Bytes, Status}
use rmw_dps.Messages.Members.{Members, Message}
use rmw_dps.Listener.{on_publication, take_next_data}
use rmw_dps.Exchange.Typed.{Publication, Data, deserialize_as}
use rmw_dps.Exchange.Publish.{serialized}
use rmw_dps.Exchange.Requests.{
  RequestId, Requests, same_id, find_request, emplace_request, erase_request, move_request,
  ServiceTyped, TakeOutcome, SendOutcome, accept_request, rmw_take_request, answer,
  rmw_send_response,
}

-- 1 if the two are the same request.
abbrev pub count_id : RequestId → RequestId → ℕ
count_id h id = if same_id h id then 1 else 0

-- How many requests with this header wait for a response.
unfoldable pub live : RequestId → Requests → ℕ
live id [] = 0
live id ((k, none) ∷ rs) = live id rs
live id ((k, some p) ∷ rs) = count_id k id + live id rs

same_id-eq : (a b : RequestId) → same_id a b ≡ true → a ≡ b
unfolding same_id
same_id-eq a b h = grind (arith, text_eq→eq a.writer_guid b.writer_guid)

live-emplace :
    (h id : RequestId) (p : Publication) (rs : Requests)
    → live id (emplace_request h p rs) ≤ count_id h id + live id rs
unfolding live emplace_request
live-emplace h id p rs = ground arith

-- The request that is found is one that waits, if its publication has not been moved.
live-erase_found :
    (h id : RequestId) (p : Publication) (rs : Requests)
    → find_request h rs ≡ some (some p)
    → live id (erase_request h rs) + count_id h id ≤ live id rs
unfolding live find_request erase_request
live-erase_found h id p [] e = cc
live-erase_found h id p ((k, none) ∷ rs) e = ground (arith, live-erase_found h id p rs)
live-erase_found h id p ((k, some q) ∷ rs) e =
    ground (arith, live-erase_found h id p rs, same_id-eq k h)

live-erase : (h id : RequestId) (rs : Requests) → live id (erase_request h rs) ≤ live id rs
unfolding live erase_request
live-erase h id [] = omega arith
live-erase h id ((k, none) ∷ rs) = ground (arith, live-erase h id rs)
live-erase h id ((k, some q) ∷ rs) = ground (arith, live-erase h id rs)

live-move : (h id : RequestId) (rs : Requests) → live id (move_request h rs) ≤ live id rs
unfolding live move_request
live-move h id [] = omega arith
live-move h id ((k, none) ∷ rs) = ground (arith, live-move h id rs)
live-move h id ((k, some q) ∷ rs) = ground (arith, live-move h id rs)

-- What happens to a service: DPS delivers data, a request is taken, a response is sent.
pub data Call (A : Type 0) : Type 0 where
  delivered : Data → Call A
  take_request : Call A
  send_response : RequestId → A → Call A

module _ (c : Codec) (requests responses : Members) (guid_size : ℕ)
    (acknowledge : Option Publication → Bytes → Status) where
  abbrev as_handle : ServiceTyped → Handle ServiceTyped
  as_handle info = record { ours = true; data_ = some info }

  abbrev pub taking : ServiceTyped → TakeOutcome ServiceTyped (Message requests)
  taking info = rmw_take_request c requests guid_size (as_handle info)

  abbrev pub sending : RequestId → Message responses → ServiceTyped → SendOutcome
  sending h m info = rmw_send_response c responses acknowledge (as_handle info) h m

  abbrev left : ServiceTyped → Option ServiceTyped → ServiceTyped
  left info none = info
  left info (some info') = info'

  -- How many requests with the header `id` a call takes, and how many it acknowledges.
  abbrev count_taken : RequestId → Option RequestId → ℕ
  count_taken id none = 0
  count_taken id (some h) = count_id h id

  abbrev count_acked : RequestId → RequestId → Option (Option Publication × Bytes) → ℕ
  count_acked id h none = 0
  count_acked id h (some (none, bytes)) = 0
  count_acked id h (some (some p, bytes)) = count_id h id

  acknowledging :
      (id h : RequestId) (p : Option Publication) (rs : Requests) (bytes : Bytes)
      → find_request h rs ≡ some p
      → count_acked id h (some (p, bytes)) + live id (erase_request h rs) ≤ live id rs
  acknowledging id h none rs bytes e = omega (arith, live-erase h id rs)
  acknowledging id h (some p) rs bytes e = omega (arith, live-erase_found h id p rs e)

  unfoldable pub after_call : Call (Message responses) → ServiceTyped → ServiceTyped
  after_call (delivered d) info = record info { listener = (on_publication d info.listener).0 }
  after_call take_request info = left info (taking info).info
  after_call (send_response h m) info = left info (sending h m info).info

  unfoldable pub taken_by : RequestId → Call (Message responses) → ServiceTyped → ℕ
  taken_by id (delivered d) info = 0
  taken_by id take_request info = count_taken id (taking info).header
  taken_by id (send_response h m) info = 0

  unfoldable pub acked_by : RequestId → Call (Message responses) → ServiceTyped → ℕ
  acked_by id (delivered d) info = 0
  acked_by id take_request info = 0
  acked_by id (send_response h m) info = count_acked id h (sending h m info).acked

  accepting :
      (id : RequestId) (d : Data) (base info : ServiceTyped)
      → let taken = accept_request c requests guid_size d info in
        live id (left base taken.info).requests
        ≤ count_taken id taken.header + live id info.requests
  unfolding accept_request
  accepting id (p, payload) base info =
      elim (Option-cases (deserialize_as c requests info.typesupport_identifier payload)) [
        | inl e ↦ rw (e, count_taken, left) (omega arith)
        | inr (m, e) ↦ rw (e, count_taken, left) (live-emplace _ id p info.requests)
      ]

  taking_lem :
      (id : RequestId) (info : ServiceTyped)
      → live id (left info (taking info).info).requests
        ≤ count_taken id (taking info).header + live id info.requests
  unfolding rmw_take_request
  taking_lem id info = elim (Option-cases (take_next_data info.listener).0) [
    | inl e ↦ rw e (omega arith)
    | inr (d, e) ↦
        rw e (accepting id d info (record info { listener = (take_next_data info.listener).1 }))
  ]

  answering :
      (id h : RequestId) (m : Message responses) (info : ServiceTyped)
      (found : Option (Option Publication))
      → find_request h info.requests ≡ found
      → let sent = answer c responses acknowledge h m found info in
        count_acked id h sent.acked + live id (left info sent.info).requests ≤ live id info.requests
  unfolding answer
  answering id h m info none e = omega arith
  answering id h m info (some p) e =
      elim (Option-cases (serialized c responses info.typesupport_identifier m)) [
        | inl e' ↦ rw (e', left, count_acked) (omega (arith, live-move h id info.requests))
        | inr (none, e') ↦ rw (e', left, count_acked) (omega (arith, live-erase h id info.requests))
        | inr (some bytes, e') ↦
            rw (e', left, count_acked) (acknowledging id h p info.requests bytes e)
      ]

  sending_lem :
      (id h : RequestId) (m : Message responses) (info : ServiceTyped)
      → count_acked id h (sending h m info).acked
          + live id (left info (sending h m info).info).requests
        ≤ live id info.requests
  unfolding rmw_send_response
  sending_lem id h m info = answering id h m info (find_request h info.requests) refl

  -- One call: what is acknowledged and what then waits is at most what is taken and what waited.
  call_lem :
      (id : RequestId) (call : Call (Message responses)) (info : ServiceTyped)
      → acked_by id call info + live id (after_call call info).requests
        ≤ taken_by id call info + live id info.requests
  unfolding acked_by after_call taken_by
  call_lem id (delivered d) info = omega arith
  call_lem id take_request info = omega (arith, taking_lem id info)
  call_lem id (send_response h m) info = omega (arith, sending_lem id h m info)

  abbrev pub after_calls : List (Call (Message responses)) → ServiceTyped → ServiceTyped
  after_calls [] info = info
  after_calls (call ∷ calls) info = after_calls calls (after_call call info)

  abbrev pub taken : RequestId → List (Call (Message responses)) → ServiceTyped → ℕ
  taken id [] info = 0
  taken id (call ∷ calls) info = taken_by id call info + taken id calls (after_call call info)

  abbrev pub acked : RequestId → List (Call (Message responses)) → ServiceTyped → ℕ
  acked id [] info = 0
  acked id (call ∷ calls) info = acked_by id call info + acked id calls (after_call call info)

  -- In any run of calls of a service, the responses that are acknowledged for a request, and the
  -- requests with its header that still wait, are together at most those that waited before and those
  -- that were taken: a request that is taken once is answered at most once.
  pub acked-le-taken :
      (id : RequestId) (calls : List (Call (Message responses))) (info : ServiceTyped)
      → acked id calls info + live id (after_calls calls info).requests
        ≤ taken id calls info + live id info.requests
  acked-le-taken id [] info = omega arith
  acked-le-taken id (call ∷ calls) info =
      omega (arith, call_lem id call info, acked-le-taken id calls (after_call call info))
