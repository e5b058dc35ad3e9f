-- ===== src/Wait/State.antt =====
-- The state that rmw_wait of rmw_dps_cpp/src/rmw_wait.cpp works on, and check_wait_set_for_data: the
-- listeners of subscriptions, clients and services and the guard conditions, each named by its
-- pointer. `none` in an array is a null pointer. What other threads do is a list of events.
use rmw_dps.Prelude.{ℕ, Bool, false, ◌||◌, List, [], ◌∷◌, Option, none, some, ◌==◌, if◌then◌else◌}
use rmw_dps.Listener
use rmw_dps.Listener.{Listener, on_publication, has_data}
use rmw_dps.GuardCondition.{GuardCondition, trigger}
pub use rmw_dps.Rmw.{RmwRet, ok, error, timeout}

-- rmw_subscriptions_t and its like: the array of pointers, or no array.
abbrev pub Pointers : Type 0
Pointers = Option (List (Option ℕ))

pub record WaitArgs : Type 0 where
  pub subscriptions : Pointers
  pub guard_conditions : Pointers
  pub services : Pointers
  pub clients : Pointers

-- rmw_time_t
pub record Timeout : Type 0 where
  pub sec : ℕ
  pub nsec : ℕ

unfoldable pub update {ℓ} : {A : Type ℓ} → (ℕ → A) → ℕ → A → ℕ → A
update f p a q = if q == p then a else f q

-- What the pointers point to.
pub record World (D : Type 0) : Type 0 where
  pub listeners : ℕ → Listener D
  pub guards : ℕ → GuardCondition

-- What another thread does: DPS delivers data to a listener, a guard condition is triggered, or data
-- is taken.
pub data Event (D : Type 0) : Type 0 where
  delivered : ℕ → D → Event D
  triggered : ℕ → Event D
  taken : ℕ → Event D

abbrev pub array : Pointers → List (Option ℕ)
array none = []
array (some ps) = ps

abbrev pub notifies : ℕ → Option ℕ → Bool
notifies c none = false
notifies c (some k) = k == c

module _ {D : Type 0} where
  abbrev pub at_listener : (Listener D → Listener D) → ℕ → World D → World D
  at_listener f p w = record w { listeners = update w.listeners p (f (w.listeners p)) }

  abbrev pub at_guard : (GuardCondition → GuardCondition) → ℕ → World D → World D
  at_guard f p w = record w { guards = update w.guards p (f (w.guards p)) }

  -- One event, and the condition variable that it notifies.
  unfoldable pub step : Event D → World D → World D × Option ℕ
  unfolding update
  step (delivered p d) w =
      let (l, notified) = on_publication d (w.listeners p) in
      (record w { listeners = update w.listeners p l }, notified)
  step (triggered p) w =
      let (g, notified) = trigger (w.guards p) in
      (record w { guards = update w.guards p g }, notified)
  step (taken p) w = (at_listener (λ l. (Listener.take_next_data l).1) p w, none)

  unfoldable pub run : List (Event D) → World D → World D
  unfolding step
  run [] w = w
  run (e ∷ es) w = run es (step e w).0

  -- The loops of check_wait_set_for_data: a null pointer is passed over.
  unfoldable pub any_data : List (Option ℕ) → World D → Bool
  any_data [] w = false
  any_data (none ∷ ps) w = any_data ps w
  any_data (some p ∷ ps) w = has_data (w.listeners p) || any_data ps w

  unfoldable pub any_triggered : List (Option ℕ) → World D → Bool
  any_triggered [] w = false
  any_triggered (none ∷ ps) w = any_triggered ps w
  any_triggered (some p ∷ ps) w = (w.guards p).has_triggered || any_triggered ps w

  -- check_wait_set_for_data
  unfoldable pub check_wait_set_for_data : WaitArgs → World D → Bool
  check_wait_set_for_data args w =
      any_data (array args.subscriptions) w
      || (any_data (array args.clients) w
          || (any_data (array args.services) w || any_triggered (array args.guard_conditions) w))
