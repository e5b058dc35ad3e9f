-- ===== src/Exchange/Publish.antt =====
-- rmw_dps_cpp/src/publish_common.cpp and rmw_dps_cpp/src/rmw_publish.cpp. What the calls of DPS return
-- is a parameter; a result is the return code and what DPS_PublishBufs is given, if it is called.
-- `none` as the return code is an exception or a failed assertion.
use rmw_dps.Prelude.{◌>>=◌, Bool, not, Option, none, some, if◌then◌else◌}
use rmw_dps.Rmw.{RmwRet, ok, error, unsupported, Handle}
use rmw_dps.Cbor.Codec.{Codec, Bytes, Status, dps_ok, overflow, failed}
use rmw_dps.Cbor.Tx.{new_stream}
use rmw_dps.Messages.Members.{Language, Members, Message}
use rmw_dps.Exchange.Typed.{serialize_as}

-- DPS_CreateEvent, DPS_PublishBufs and DPS_WaitForEvent, which returns what _published signals.
pub record PublishOutcomes : Type 0 where
  pub create_event : Bool
  pub publish_bufs : Status
  pub wait_for_event : Status

-- publish(): the status, and what is handed to DPS.
unfoldable pub publish : PublishOutcomes → Bytes → Status × Option Bytes
publish outcomes bytes =
    if not outcomes.create_event then (failed, none) else elim outcomes.publish_bufs [
      | dps_ok ↦ (outcomes.wait_for_event, some bytes)
      | overflow ↦ (overflow, some bytes)
      | failed ↦ (failed, some bytes)
    ]

-- CustomPublisherInfo, as far as publishing goes: typesupport_identifier_.
pub record PublisherTyped : Type 0 where
  pub typesupport_identifier : Option Language

-- status == DPS_OK ? RMW_RET_OK : RMW_RET_ERROR
unfoldable pub status_ret : Status → RmwRet
status_ret dps_ok = ok
status_ret overflow = error
status_ret failed = error

module _ (c : Codec) (ms : Members) where
  -- The bytes of a message: `TxStream ser;` and _serialize_ros_message. The outer option is the
  -- exception, the inner one `false`. The hint is that of TxStream's default constructor.
  unfoldable pub serialized : Option Language → Message ms → Option (Option Bytes)
  serialized identifier m = do
    ser ← new_stream c 1024
    (done, ser') ← serialize_as c ms identifier m ser
    some (if done then some ser'.buffer.written else none)

  -- Serialize, and publish if that succeeds: the end of rmw_publish.
  unfoldable pub publish_message :
      PublishOutcomes → Option Language → Message ms → Option RmwRet × Option Bytes
  unfolding serialized publish status_ret
  publish_message outcomes identifier m = elim (serialized identifier m) [
    | none ↦ (none, none)
    | some none ↦ (some error, none)
    | some (some bytes) ↦
        let (status, sent) = publish outcomes bytes in (some (status_ret status), sent)
  ]

  unfoldable pub rmw_publish :
      PublishOutcomes
      → Option (Handle PublisherTyped)
      → Option (Message ms)
      → Option RmwRet × Option Bytes
  rmw_publish outcomes none ros_message = (some error, none)
  rmw_publish outcomes (some publisher) none = (some error, none)
  rmw_publish outcomes (some publisher) (some m) =
      if publisher.ours
      then elim publisher.data_ [
        | none ↦ (none, none)
        | some info ↦ publish_message outcomes info.typesupport_identifier m
      ]
      else (some error, none)

-- rmw_publish_serialized_message; `serialized_message` is its buffer up to buffer_length.
unfoldable pub rmw_publish_serialized_message :
    PublishOutcomes → Option (Handle PublisherTyped) → Option Bytes → RmwRet × Option Bytes
unfolding publish status_ret
rmw_publish_serialized_message outcomes none serialized_message = (error, none)
rmw_publish_serialized_message outcomes (some publisher) none = (error, none)
rmw_publish_serialized_message outcomes (some publisher) (some bytes) =
    if publisher.ours
    then elim publisher.data_ [
      | none ↦ (error, none)
      | some info ↦ let (status, sent) = publish outcomes bytes in (status_ret status, sent)
    ]
    else (error, none)

-- rmw_publish_loaned_message
unfoldable pub rmw_publish_loaned_message : RmwRet
rmw_publish_loaned_message = unsupported
