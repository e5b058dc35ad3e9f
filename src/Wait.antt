-- ===== src/Wait.antt =====
-- rmw_wait of rmw_dps_cpp/src/rmw_wait.cpp. `none` as the result of a phase is the dereference of a
-- null pointer.
pub mod State
pub mod Attach
pub mod Wakeup
pub mod Meanwhile
pub mod Detach
pub mod Left
pub mod Flags
pub mod Leftover
pub mod Ready
pub mod Sets
mod Tests
use rmw_dps.Prelude.{
  ◌>>=◌, ℕ, zero, suc, ◌+◌, Bool, true, false, not, ◌&&◌, ◌||◌, List, [], ◌∷◌, Option, none, some,
  ◌==◌, ltb, if◌then◌else◌,
}
use rmw_dps.Listener
use rmw_dps.Listener.{Listener, on_publication, has_data}
use rmw_dps.GuardCondition
use rmw_dps.GuardCondition.{GuardCondition, trigger, get_has_triggered}
use rmw_dps.Wait.State.{
  ok, error, timeout, RmwRet, Pointers, WaitArgs, Timeout, update, World, Event, at_listener,
  at_guard, step, run, check_wait_set_for_data, array, notifies,
}

-- The call returned, it dereferenced a null pointer, or it waits on at the end of the events.
pub data Outcome (D : Type 0) : Type 0 where
  returned : RmwRet → WaitArgs → World D → Outcome D
  fault : Outcome D
  blocked : Outcome D

module _ {D : Type 0} where
  -- The loops that attach the condition: a null pointer is dereferenced.
  unfoldable pub attach_listeners : ℕ → List (Option ℕ) → World D → Option (World D)
  unfolding update
  attach_listeners c [] w = some w
  attach_listeners c (none ∷ ps) w = none
  attach_listeners c (some p ∷ ps) w =
      attach_listeners c ps (at_listener (Listener.attach_condition c) p w)

  unfoldable pub attach_guards : ℕ → List (Option ℕ) → World D → Option (World D)
  unfolding update
  attach_guards c [] w = some w
  attach_guards c (none ∷ ps) w = none
  attach_guards c (some p ∷ ps) w =
      attach_guards c ps (at_guard (GuardCondition.attach_condition c) p w)

  unfoldable pub attach_all : ℕ → WaitArgs → World D → Option (World D)
  attach_all c args w = do
    w₁ ← attach_listeners c (array args.subscriptions) w
    w₂ ← attach_listeners c (array args.clients) w₁
    w₃ ← attach_listeners c (array args.services) w₂
    attach_guards c (array args.guard_conditions) w₃

  -- Asleep on the condition variable: the predicate is looked at again when it is notified. The
  -- events that are left when it holds are returned; `none` means that the thread sleeps on.
  unfoldable pub sleep : ℕ → WaitArgs → List (Event D) → World D → Option (World D × List (Event D))
  sleep c args [] w = none
  sleep c args (e ∷ es) w =
      let (w', notified) = step e w in
      let rest = sleep c args es w' in
      if notifies c notified && check_wait_set_for_data args w' then some (w', es) else rest

  -- The decision to wait, and the wait: whether it timed out, and the events that are left.
  unfoldable pub wait :
      ℕ
      → WaitArgs
      → Option Timeout
      → List (Event D)
      → World D
      → Option (Bool × World D × List (Event D))
  wait c args none es w =
      if check_wait_set_for_data args w
      then some (false, w, es)
      else elim (sleep c args es w) [ none ↦ none | some (w', rest) ↦ some (false, w', rest) ]
  wait c args (some t) es w =
      if check_wait_set_for_data args w
      then some (false, w, es)
      else if ltb 0 t.sec || ltb 0 t.nsec
      then elim (sleep c args es w) [
        | none ↦ some (not (check_wait_set_for_data args (run es w)), run es w, [])
        | some (w', rest) ↦ some (false, w', rest)
      ]
      else some (true, w, es)

  -- What other threads do before the next step: the next of the gaps, or nothing after the last.
  unfoldable pub between : List (List (Event D)) → World D → World D × List (List (Event D))
  between [] w = (w, [])
  between (es ∷ gaps) w = (run es w, gaps)

  -- The loops that detach: an entry whose listener has no data is set to null. No lock is held from
  -- one entry to the next, nor between detachCondition() and hasData().
  unfoldable pub detach_listeners :
      List (Option ℕ)
      → List (List (Event D))
      → World D
      → Option (List (Option ℕ) × (List (List (Event D)) × World D))
  unfolding update between
  detach_listeners [] gaps w = some ([], (gaps, w))
  detach_listeners (none ∷ ps) gaps w = none
  detach_listeners (some p ∷ ps) gaps w =
      let (w₁, gaps₁) = between gaps w in
      let (w₂, gaps₂) = between gaps₁ (at_listener Listener.detach_condition p w₁) in
      detach_listeners ps gaps₂ w₂ >>= λ r.
      some ((if has_data (w₂.listeners p) then some p else none) ∷ r.0, r.1)

  -- A guard condition's flag is cleared when it is read.
  unfoldable pub detach_guards :
      List (Option ℕ)
      → List (List (Event D))
      → World D
      → Option (List (Option ℕ) × (List (List (Event D)) × World D))
  unfolding update between
  detach_guards [] gaps w = some ([], (gaps, w))
  detach_guards (none ∷ ps) gaps w = none
  detach_guards (some p ∷ ps) gaps w =
      let (w₁, gaps₁) = between gaps w in
      let (w₂, gaps₂) = between gaps₁ (at_guard GuardCondition.detach_condition p w₁) in
      detach_guards ps gaps₂ (at_guard (λ g. (get_has_triggered g).0) p w₂) >>= λ r.
      some ((if (get_has_triggered (w₂.guards p)).1 then some p else none) ∷ r.0, r.1)

  abbrev pub on_array :
      (List (Option ℕ)
        → List (List (Event D))
        → World D
        → Option (List (Option ℕ) × (List (List (Event D)) × World D)))
      → Pointers
      → List (List (Event D)) × World D
      → Option (Pointers × (List (List (Event D)) × World D))
  on_array f none (gaps, w) = some (none, (gaps, w))
  on_array f (some ps) (gaps, w) = f ps gaps w >>= λ r. some (some r.0, r.1)

  unfoldable pub detach_all :
      WaitArgs → List (List (Event D)) → World D → Option (WaitArgs × World D)
  detach_all args gaps w = do
    (subscriptions, s₁) ← on_array detach_listeners args.subscriptions (gaps, w)
    (clients, s₂) ← on_array detach_listeners args.clients s₁
    (services, s₃) ← on_array detach_listeners args.services s₂
    (guard_conditions, s₄) ← on_array detach_guards args.guard_conditions s₃
    some (
      record {
        subscriptions = subscriptions;
        guard_conditions = guard_conditions;
        services = services;
        clients = clients;
      },
      s₄.1,
    )

  -- rmw_wait from the attach loops on. `during` are the events while it waits, and those that are left
  -- come after the unlock; `gaps` are those before each further step of the loops that detach.
  unfoldable pub wait_on :
      ℕ → WaitArgs → Option Timeout → List (Event D) → List (List (Event D)) → World D → Outcome D
  wait_on c args wait_timeout during gaps w = elim (attach_all c args w) [
    | none ↦ fault
    | some attached ↦ elim (wait c args wait_timeout during attached) [
      | none ↦ blocked
      | some (timed_out, w', rest) ↦ elim (detach_all args gaps (run rest w')) [
        | none ↦ fault
        | some (args', w'') ↦ returned (if timed_out then timeout else ok) args' w''
      ]
    ]
  ]

  -- rmw_wait. `event_count` is that of `events`, if given; a wait set has its info or a null pointer.
  unfoldable pub rmw_wait :
      Option ℕ
      → Option (Option ℕ)
      → WaitArgs
      → Option Timeout
      → List (Event D)
      → List (List (Event D))
      → World D
      → Outcome D
  rmw_wait (some (suc n)) wait_set args wait_timeout during gaps w = returned error args w
  rmw_wait _ none args wait_timeout during gaps w = returned error args w
  rmw_wait _ (some none) args wait_timeout during gaps w = returned error args w
  rmw_wait _ (some (some c)) args wait_timeout during gaps w =
      wait_on c args wait_timeout during gaps w
