-- ===== src/Wait/Tests.antt =====
-- Runs of rmw_wait, and the theorems about it at concrete inputs.
use rmw_dps.Prelude.{
  ◌⊎◌, true, ◌>>=◌, ℕ, ◌≡◌, refl, List, [], ◌∷◌, some, none, false, Bool, Option, if◌then◌else◌,
}
use rmw_dps.Listener.{Listener, new_listener, on_publication, has_data, take_next_data}
use rmw_dps.Listener
use rmw_dps.GuardCondition.{GuardCondition, new_guard_condition, trigger, get_has_triggered}
use rmw_dps.GuardCondition
use rmw_dps.Wait.State.{
  WaitArgs, World, Event, delivered, triggered, RmwRet, ok, timeout, update, step, run, any_data,
  any_triggered, check_wait_set_for_data, array,
}
use rmw_dps.Wait.{
  attach_listeners, attach_guards, attach_all, sleep, wait, detach_listeners, detach_guards,
  detach_all, between, wait_on, rmw_wait, Outcome, returned, blocked, fault,
}
use rmw_dps.Wait.Wakeup.{wait_spec, wait-wait_spec}
use rmw_dps.Wait.Detach.{EachLeft, holds_pointer}
use rmw_dps.Wait.Sets.{
  CreateOutcomes, no_wait_set, rmw_create_wait_set, rmw_destroy_wait_set, returned_pointer,
  rmw_destroy_wait_set-rmw_create_wait_set,
}
use rmw_dps.Wait.Flags.{any_triggers, IsClear}
use rmw_dps.Wait.Ready.{wait_on_entries, wait_on_verdict}

abbrev quiet : World ℕ
quiet = record { listeners = λ p. new_listener; guards = λ p. new_guard_condition }

-- Two subscriptions and a guard condition.
abbrev two_subscriptions : WaitArgs
two_subscriptions = record {
  subscriptions = some (some 1 ∷ some 2 ∷ []);
  guard_conditions = some (some 9 ∷ []);
  services = none;
  clients = none;
}

-- The second subscription gets data while the thread waits.
abbrev arrival : List (Event ℕ)
arrival = triggered 8 ∷ delivered 2 5 ∷ []

-- What rmw_wait returns, and the entries that it leaves.
abbrev entries : Outcome ℕ → Option (RmwRet × List (Option ℕ) × List (Option ℕ))
entries (returned r args w) = some (r, array args.subscriptions, array args.guard_conditions)
entries fault = none
entries blocked = none

arrival_wakes :
    entries (rmw_wait none (some (some 7)) two_subscriptions none arrival [] quiet)
    ≡ some (ok, none ∷ some 2 ∷ [], none ∷ [])
unfolding rmw_wait wait_on attach_all attach_listeners attach_guards Listener.attach_condition
    GuardCondition.attach_condition wait sleep step on_publication trigger check_wait_set_for_data
    any_data any_triggered has_data detach_all detach_listeners detach_guards between
    Listener.detach_condition GuardCondition.detach_condition get_has_triggered run update
arrival_wakes = refl

-- No data, and no time to wait.
nothing_times_out :
    entries (
      rmw_wait none
        (some (some 7))
        two_subscriptions
        (some (record { sec = 0; nsec = 0 }))
        []
        []
        quiet)
    ≡ some (timeout, none ∷ none ∷ [], none ∷ [])
unfolding rmw_wait wait_on attach_all attach_listeners attach_guards Listener.attach_condition
    GuardCondition.attach_condition wait sleep step check_wait_set_for_data any_data any_triggered
    has_data detach_all detach_listeners detach_guards between Listener.detach_condition
    GuardCondition.detach_condition get_has_triggered run update
nothing_times_out = refl

abbrev attached : World ℕ
attached = record {
  listeners =
      update (update quiet.listeners 1 (record { data_ = []; condition = some 7 })) 2
        (record { data_ = []; condition = some 7 });
  guards = update quiet.guards 9 (record { has_triggered = false; condition = some 7 });
}

wait-wait_spec_example :
    wait 7 two_subscriptions none arrival attached
    ≡ wait_spec two_subscriptions none arrival attached
unfolding attach_all attach_listeners attach_guards Listener.attach_condition
    GuardCondition.attach_condition update
wait-wait_spec_example = wait-wait_spec 7 two_subscriptions none arrival quiet attached refl

-- What a call that returned leaves.
abbrev args_of : Outcome ℕ → WaitArgs
args_of (returned r args w) = args
args_of fault = two_subscriptions
args_of blocked = two_subscriptions

abbrev world_of : Outcome ℕ → World ℕ
world_of (returned r args w) = w
world_of fault = quiet
world_of blocked = quiet

-- Data for the first subscription and a trigger arrive while the entries are detached.
abbrev meanwhile : List (List (Event ℕ))
meanwhile = (delivered 1 4 ∷ []) ∷ (triggered 8 ∷ []) ∷ []

abbrev woken : Outcome ℕ
woken = wait_on 7 two_subscriptions none arrival meanwhile quiet

woken_returns : woken ≡ returned ok (args_of woken) (world_of woken)
unfolding wait_on attach_all attach_listeners attach_guards Listener.attach_condition
    GuardCondition.attach_condition wait sleep step on_publication trigger check_wait_set_for_data
    any_data any_triggered has_data detach_all detach_listeners detach_guards between
    Listener.detach_condition GuardCondition.detach_condition get_has_triggered run update
woken_returns = refl

wait_on_entries_example :
    (attached : World ℕ) × (waited : Bool × World ℕ × List (Event ℕ)) × (attach_all 7
        two_subscriptions quiet
      ≡ some attached)
    × (wait_spec two_subscriptions none arrival attached ≡ some waited)
    × EachLeft waited.1
        (world_of woken)
        (some 1 ∷ some 2 ∷ [])
        (array (args_of woken).subscriptions)
    × EachLeft waited.1 (world_of woken) [] (array (args_of woken).clients)
    × EachLeft waited.1 (world_of woken) [] (array (args_of woken).services)
    × (((waited.1.guards 9).has_triggered ≡ false)
        ⊎ (holds_pointer 9 (some 9 ∷ []) ≡ false)
        ⊎ (holds_pointer 9 (array (args_of woken).guard_conditions) ≡ true))
    × ((any_triggers 9 (waited.2 ∷ meanwhile) ≡ true)
        ⊎ (((IsClear 9 (world_of woken)) ⊎ (holds_pointer 9 (some 9 ∷ []) ≡ false))
            × (((waited.1.guards 9).has_triggered ≡ true)
                ⊎ (holds_pointer 9 (array (args_of woken).guard_conditions) ≡ false))))
wait_on_entries_example =
    wait_on_entries 7 two_subscriptions (args_of woken) none arrival meanwhile quiet
      (world_of woken) ok 9 (tt, (tt, tt)) (((tt, tt), ((tt, tt), tt))) woken_returns

wait_on_verdict_example :
    (attached : World ℕ) × (waited : Bool × World ℕ × List (Event ℕ)) × (attach_all 7
        two_subscriptions quiet
      ≡ some attached)
    × (wait_spec two_subscriptions none arrival attached ≡ some waited)
    × (ok ≡ (if check_wait_set_for_data two_subscriptions waited.1 then ok else timeout))
wait_on_verdict_example =
    wait_on_verdict 7 two_subscriptions (args_of woken) none arrival meanwhile quiet
      (world_of woken) ok woken_returns

-- All allocations succeed.
abbrev all_succeed : CreateOutcomes
all_succeed = record { wait_set_allocate = true; allocate = true; construct = true }

rmw_destroy_wait_set-rmw_create_wait_set_example :
    (rmw_create_wait_set all_succeed >>= λ r. rmw_destroy_wait_set true (returned_pointer r.0) r.1)
    ≡ some (ok, no_wait_set)
rmw_destroy_wait_set-rmw_create_wait_set_example =
    rmw_destroy_wait_set-rmw_create_wait_set all_succeed true
