-- ===== src/Qos.antt =====
-- Quality of service: the names in rmw_dps_cpp/src/qos_common.cpp, and the profiles that
-- rmw_dps_cpp/src/rmw_publisher.cpp and rmw_dps_cpp/src/rmw_subscription.cpp report. `none` is a null
-- pointer, and as a result the dereference of one.
use rmw_dps.Prelude.{Bool, true, false, Option, none, some}
use rmw_dps.Text.{Text, codes}
use rmw_dps.Rmw.{RmwRet, ok, invalid_argument}

-- rmw_qos_history_policy_t, with any other value
pub data History : Type 0 where
  keep_last keep_all default_history other_history : History

-- rmw_qos_reliability_policy_t, with any other value
pub data Reliability : Type 0 where
  best_effort reliable default_reliability other_reliability : Reliability

-- rmw_qos_durability_policy_t, with any other value
pub data Durability : Type 0 where
  transient_local volatile default_durability other_durability : Durability

unfoldable pub qos_history_string : History → Option Text
qos_history_string keep_last = some (codes "KEEP_LAST")
qos_history_string keep_all = some (codes "KEEP_ALL")
qos_history_string default_history = some (codes "SYSTEM_DEFAULT")
qos_history_string other_history = none

unfoldable pub qos_reliability_string : Reliability → Option Text
qos_reliability_string best_effort = some (codes "BEST_EFFORT")
qos_reliability_string reliable = some (codes "RELIABLE")
qos_reliability_string default_reliability = some (codes "SYSTEM_DEFAULT")
qos_reliability_string other_reliability = none

unfoldable pub qos_durability_string : Durability → Option Text
qos_durability_string transient_local = some (codes "TRANSIENT_LOCAL")
qos_durability_string volatile = some (codes "VOLATILE")
qos_durability_string default_durability = some (codes "SYSTEM_DEFAULT")
qos_durability_string other_durability = none

-- A profile is of any type. The handle is given by the profile of its data, if it has data, and the
-- result has what is written to `qos`.
module _ {Q : Type 0} where
  -- rmw_publisher_get_actual_qos
  unfoldable pub rmw_publisher_get_actual_qos :
      Option (Option Q) → Bool → Option (RmwRet × Option Q)
  rmw_publisher_get_actual_qos none qos = some (invalid_argument, none)
  rmw_publisher_get_actual_qos (some info) false = some (invalid_argument, none)
  rmw_publisher_get_actual_qos (some none) true = none
  rmw_publisher_get_actual_qos (some (some profile)) true = some (ok, some profile)

  -- rmw_subscription_get_actual_qos
  unfoldable pub rmw_subscription_get_actual_qos :
      Option (Option Q) → Bool → Option (RmwRet × Option Q)
  rmw_subscription_get_actual_qos none qos = some (invalid_argument, none)
  rmw_subscription_get_actual_qos (some info) false = some (invalid_argument, none)
  rmw_subscription_get_actual_qos (some none) true = none
  rmw_subscription_get_actual_qos (some (some profile)) true = some (ok, some profile)
