-- ===== src/Wait/Wakeup.antt =====
-- The wait of rmw_wait in rmw_dps_cpp/src/rmw_wait.cpp, with notifications and without.
use rmw_dps.Prelude.{
  ℕ, ◌≡◌, refl, Bool, true, false, ◌||◌, List, [], ◌∷◌, Option, none, some, arith, if◌then◌else◌,
  not, ltb, All, All-imp, ◌∙◌,
}
use rmw_dps.Listener.{on_publication, has_data, take_next_data}
use rmw_dps.GuardCondition.{trigger}
use rmw_dps.Wait.State.{
  WaitArgs, World, Event, delivered, triggered, taken, step, run, any_data, any_triggered,
  check_wait_set_for_data, array, notifies, Timeout,
}
use rmw_dps.Wait.{wait, sleep, attach_all}
use rmw_dps.Wait.Attach.{AttachedListener, AttachedGuard, IsAttached, attach_all-IsAttached}

module _ {D : Type 0} where
  -- An event attaches and detaches nothing.
  condition-step_listener :
      (e : Event D) (w : World D) (p : ℕ)
      → ((step e w).0.listeners p).condition ≡ (w.listeners p).condition
  unfolding step on_publication take_next_data
  condition-step_listener (delivered q d) w p = ground arith
  condition-step_listener (triggered q) w p = refl
  condition-step_listener (taken q) w p = ground arith

  condition-step_guard :
      (e : Event D) (w : World D) (p : ℕ)
      → ((step e w).0.guards p).condition ≡ (w.guards p).condition
  unfolding step trigger
  condition-step_guard (delivered q d) w p = refl
  condition-step_guard (triggered q) w p = ground arith
  condition-step_guard (taken q) w p = refl

  -- An event that does not notify `c` makes no attached listener ready, and triggers no attached
  -- guard condition.
  any_data-step :
      (c : ℕ) (e : Event D) (w : World D) (ps : List (Option ℕ))
      → All (AttachedListener c w) ps
      → notifies c (step e w).1 ≡ false
      → any_data ps w ≡ false
      → any_data ps (step e w).0 ≡ false
  unfolding step any_data on_publication take_next_data has_data trigger
  any_data-step c e w [] a n h = refl
  any_data-step c e w (none ∷ ps) a n h = absurd a.0
  any_data-step c (delivered q d) w (some p ∷ ps) a n h =
      ground (arith, a.0, any_data-step c (delivered q d) w ps a.1)
  any_data-step c (triggered q) w (some p ∷ ps) a n h =
      ground (arith, any_data-step c (triggered q) w ps a.1)
  any_data-step c (taken q) w (some p ∷ ps) a n h =
      ground (arith, any_data-step c (taken q) w ps a.1)

  any_triggered-step :
      (c : ℕ) (e : Event D) (w : World D) (ps : List (Option ℕ))
      → All (AttachedGuard c w) ps
      → notifies c (step e w).1 ≡ false
      → any_triggered ps w ≡ false
      → any_triggered ps (step e w).0 ≡ false
  unfolding step any_triggered on_publication take_next_data trigger
  any_triggered-step c e w [] a n h = refl
  any_triggered-step c e w (none ∷ ps) a n h = absurd a.0
  any_triggered-step c (delivered q d) w (some p ∷ ps) a n h =
      ground (arith, any_triggered-step c (delivered q d) w ps a.1)
  any_triggered-step c (triggered q) w (some p ∷ ps) a n h =
      ground (arith, a.0, any_triggered-step c (triggered q) w ps a.1)
  any_triggered-step c (taken q) w (some p ∷ ps) a n h =
      ground (arith, any_triggered-step c (taken q) w ps a.1)

  -- No wakeup is lost: an event that makes the wait set ready notifies the waiting thread.
  check-step :
      (c : ℕ) (args : WaitArgs) (e : Event D) (w : World D)
      → IsAttached c args w
      → check_wait_set_for_data args w ≡ false
      → notifies c (step e w).1 ≡ false
      → check_wait_set_for_data args (step e w).0 ≡ false
  unfolding check_wait_set_for_data
  check-step c args e w a h n = ground (
    arith,
    any_data-step c e w (array args.subscriptions) a.subscriptions,
    any_data-step c e w (array args.clients) a.clients,
    any_data-step c e w (array args.services) a.services,
    any_triggered-step c e w (array args.guard_conditions) a.guards,
  )

  listener_kept :
      (c : ℕ) (e : Event D) (w : World D) (o : Option ℕ)
      → AttachedListener c w o
      → AttachedListener c (step e w).0 o
  listener_kept c e w none a = a
  listener_kept c e w (some p) a = condition-step_listener e w p ∙ a

  guard_kept :
      (c : ℕ) (e : Event D) (w : World D) (o : Option ℕ)
      → AttachedGuard c w o
      → AttachedGuard c (step e w).0 o
  guard_kept c e w none a = a
  guard_kept c e w (some p) a = condition-step_guard e w p ∙ a

  IsAttached-step :
      (c : ℕ) (args : WaitArgs) (e : Event D) (w : World D)
      → IsAttached c args w
      → IsAttached c args (step e w).0
  IsAttached-step c args e w a = record {
    subscriptions = All-imp _ _ _ (listener_kept c e w) a.subscriptions;
    clients = All-imp _ _ _ (listener_kept c e w) a.clients;
    services = All-imp _ _ _ (listener_kept c e w) a.services;
    guards = All-imp _ _ _ (guard_kept c e w) a.guards;
  }

  -- The first point of a run of events at which the wait set is ready, with the events after it.
  pub first_ready : WaitArgs → List (Event D) → World D → Option (World D × List (Event D))
  first_ready args [] w = none
  first_ready args (e ∷ es) w =
      let w' = (step e w).0 in
      let rest = first_ready args es w' in
      if check_wait_set_for_data args w' then some (w', es) else rest

  sleep-first_ready :
      (c : ℕ) (args : WaitArgs) (es : List (Event D)) (w : World D)
      → IsAttached c args w
      → check_wait_set_for_data args w ≡ false
      → sleep c args es w ≡ first_ready args es w
  unfolding sleep first_ready
  sleep-first_ready c args [] w a h = refl
  sleep-first_ready c args (e ∷ es) w a h = ground (
    arith,
    check-step c args e w a h,
    sleep-first_ready c args es (step e w).0 (IsAttached-step c args e w a),
  )

  -- rmw_wait's wait, with no condition variable: it looks at the wait set after each event.
  pub wait_spec :
      WaitArgs
      → Option Timeout
      → List (Event D)
      → World D
      → Option (Bool × World D × List (Event D))
  wait_spec args none es w =
      if check_wait_set_for_data args w
      then some (false, w, es)
      else elim (first_ready args es w) [ none ↦ none | some (w', rest) ↦ some (false, w', rest) ]
  wait_spec args (some t) es w =
      if check_wait_set_for_data args w
      then some (false, w, es)
      else if ltb 0 t.sec || ltb 0 t.nsec
      then elim (first_ready args es w) [
        | none ↦ some (not (check_wait_set_for_data args (run es w)), run es w, [])
        | some (w', rest) ↦ some (false, w', rest)
      ]
      else some (true, w, es)

  -- Once everything in the wait set is attached, waiting for notifications returns at the same event,
  -- in the same state and with the same verdict on the timeout, as looking at the wait set after every
  -- event: no wakeup is lost, whatever other threads deliver, trigger or take in between.
  pub wait-wait_spec :
      (c : ℕ) (args : WaitArgs) (t : Option Timeout) (es : List (Event D)) (w w' : World D)
      → attach_all c args w ≡ some w'
      → wait c args t es w' ≡ wait_spec args t es w'
  unfolding wait wait_spec
  wait-wait_spec c args none es w w' h =
      ground (arith, sleep-first_ready c args es w' (attach_all-IsAttached c args w w' h))
  wait-wait_spec c args (some t) es w w' h =
      ground (arith, sleep-first_ready c args es w' (attach_all-IsAttached c args w w' h))
