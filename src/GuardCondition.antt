-- ===== src/GuardCondition.antt =====
-- class GuardCondition of rmw_dps_cpp/src/types/guard_condition.hpp, rmw_trigger_guard_condition of
-- rmw_dps_cpp/src/rmw_trigger_guard_condition.cpp, and the creation and destruction in
-- rmw_dps_cpp/src/rmw_guard_condition.cpp. The mutex makes each method one step. A wait
-- set's mutex and condition variable are named by one number, and a method that notifies returns it.
use rmw_dps.Prelude.{ℕ, Bool, true, false, not, Option, none, some, if◌then◌else◌}
use rmw_dps.Rmw.{RmwRet, ok, error, Handle}

pub record GuardCondition : Type 0 where
  pub has_triggered : Bool
  pub condition : Option ℕ

-- GuardCondition()
abbrev pub new_guard_condition : GuardCondition
new_guard_condition = record { has_triggered = false; condition = none }

-- trigger(): the flag is set in both cases; the attached condition variable is notified.
unfoldable pub trigger : GuardCondition → GuardCondition × Option ℕ
trigger g = elim g.condition [
  | some c ↦ (record g { has_triggered = true }, some c)
  | none ↦ (record g { has_triggered = true }, none)
]

-- attachCondition()
unfoldable pub attach_condition : ℕ → GuardCondition → GuardCondition
attach_condition c g = record g { condition = some c }

-- detachCondition()
unfoldable pub detach_condition : GuardCondition → GuardCondition
detach_condition g = record g { condition = none }

-- getHasTriggered(): exchanges the flag with false.
unfoldable pub get_has_triggered : GuardCondition → GuardCondition × Bool
get_has_triggered g = (record g { has_triggered = false }, g.has_triggered)

-- rmw_create_guard_condition: `context` is whether the context is of this implementation.
unfoldable pub rmw_create_guard_condition : Option Bool → Option (Handle GuardCondition)
rmw_create_guard_condition none = none
rmw_create_guard_condition (some context) =
    if context then some (record { ours = true; data_ = some new_guard_condition }) else none

-- rmw_destroy_guard_condition: the return code, and what is left. It has no test of the identifier.
unfoldable pub rmw_destroy_guard_condition :
    Option (Handle GuardCondition) → RmwRet × Option (Handle GuardCondition)
rmw_destroy_guard_condition none = (error, none)
rmw_destroy_guard_condition (some guard_condition) = (ok, none)

-- rmw_trigger_guard_condition: the return code, the guard condition afterwards, and the condition
-- variable that is notified. `none` is the dereference of a null pointer.
unfoldable pub rmw_trigger_guard_condition :
    Handle GuardCondition → Option (RmwRet × (Option GuardCondition × Option ℕ))
unfolding trigger
rmw_trigger_guard_condition guard_condition =
    if not guard_condition.ours
    then some (error, (guard_condition.data_, none))
    else elim guard_condition.data_ [
      | none ↦ none
      | some g ↦ let (g', notified) = trigger g in some (ok, (some g', notified))
    ]
