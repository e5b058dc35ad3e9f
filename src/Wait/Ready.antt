-- ===== src/Wait/Ready.antt =====
-- What rmw_wait returns: the verdict, the entries that stay, and the state it leaves.
use rmw_dps.Prelude.{
  ℕ, ◌≡◌, refl, sym, Bool, true, not, List, [], ◌∷◌, Option, none, some, arith, if◌then◌else◌, All,
  ◌∙◌, false, ◌⊎◌, inl, inr, Bool-cases,
}
use rmw_dps.Wait.State.{
  WaitArgs, Timeout, World, Event, step, run, check_wait_set_for_data, array, RmwRet, ok, timeout,
  RmwRet,
}
use rmw_dps.Wait.{attach_all, sleep, wait, detach_all, wait_on, returned}
use rmw_dps.Wait.Wakeup.{wait_spec, wait-wait_spec}
use rmw_dps.Wait.Meanwhile.{NoTake, Undisturbed, run-Grows, run-StaysSet}
use rmw_dps.Wait.Detach.{EachLeft, EachLeft-wider, holds_pointer}
use rmw_dps.Wait.Leftover.{wait-NoTake}
use rmw_dps.Wait.Flags.{any_triggers, IsClear, FlagsRead, run-IsClear, detach_all-FlagsRead}
use rmw_dps.Wait.Left.{AllLeft, detach_all-AllLeft}

module _ {D : Type 0} where
  sleep_ready :
      (c : ℕ) (args : WaitArgs) (es : List (Event D)) (w w' : World D) (rest : List (Event D))
      → sleep c args es w ≡ some (w', rest)
      → check_wait_set_for_data args w' ≡ true
  unfolding sleep
  sleep_ready c args [] w w' rest h = cc
  sleep_ready c args (e ∷ es) w w' rest h =
      ground (arith, sleep_ready c args es (step e w).0 w' rest)

  -- The wait ends without a timeout exactly if the wait set is ready when it ends.
  pub wait_verdict :
      (c : ℕ) (args : WaitArgs) (t : Option Timeout) (es : List (Event D)) (w w' : World D)
      (timed_out : Bool) (rest : List (Event D))
      → wait c args t es w ≡ some (timed_out, w', rest)
      → check_wait_set_for_data args w' ≡ not timed_out
  unfolding wait
  wait_verdict c args none es w w' timed_out rest h =
      ground (arith, sleep_ready c args es w w' rest)
  wait_verdict c args (some t) es w w' timed_out rest h =
      ground (arith, sleep_ready c args es w w' rest)

  wait_on_steps :
      (c : ℕ) (args args' : WaitArgs) (t : Option Timeout) (during : List (Event D))
      (gaps : List (List (Event D))) (w w' : World D) (r : RmwRet)
      → wait_on c args t during gaps w ≡ returned r args' w'
      → (attached : World D) × (waited : Bool × World D × List (Event D)) × (detached : WaitArgs
          × World D)
        × (attach_all c args w ≡ some attached)
        × (wait c args t during attached ≡ some waited)
        × (detach_all args gaps (run waited.2 waited.1) ≡ some detached)
        × (args' ≡ detached.0)
        × (w' ≡ detached.1)
        × (r ≡ (if waited.0 then timeout else ok))
  unfolding wait_on
  wait_on_steps c args args' t during gaps w w' r h = ground arith

  -- rmw_wait returns OK exactly if the wait set was ready when its wait ended, and TIMEOUT otherwise:
  -- there is the state in which it ended, which is also the one that the specification of the wait,
  -- looking at the wait set after every event, ends in.
  pub wait_on_verdict :
      (c : ℕ) (args args' : WaitArgs) (t : Option Timeout) (during : List (Event D))
      (gaps : List (List (Event D))) (w w' : World D) (r : RmwRet)
      → wait_on c args t during gaps w ≡ returned r args' w'
      → (attached : World D) × (waited : Bool × World D × List (Event D)) × (attach_all c args w
          ≡ some attached)
        × (wait_spec args t during attached ≡ some waited)
        × (r ≡ (if check_wait_set_for_data args waited.1 then ok else timeout))
  wait_on_verdict c args args' t during gaps w w' r h =
      let (attached, waited, detached, a, e, _, _, _, v) =
        wait_on_steps c args args' t during gaps w w' r h in
      (
        attached,
        waited,
        a,
        sym (wait-wait_spec c args t during w attached a) ∙ e,
        v ∙ ground (arith, wait_verdict c args t during attached waited.1 waited.0 waited.2 e),
      )

  -- Whether an array keeps a guard condition that was triggered.
  guard_left :
      (w : World D) (g : ℕ) (as' bs : List (Option ℕ))
      → ((w.guards g).has_triggered ≡ true → holds_pointer g as' ≡ true → holds_pointer g bs ≡ true)
      → ((w.guards g).has_triggered ≡ false)
        ⊎ (holds_pointer g as' ≡ false)
        ⊎ (holds_pointer g bs ≡ true)
  guard_left w g as' bs h = elim (Bool-cases (w.guards g).has_triggered) [
    | inr f ↦ inl f
    | inl t ↦ elim (Bool-cases (holds_pointer g as')) [
      | inr f ↦ inr (inl f)
      | inl k ↦ inr (inr (h t k))
    ]
  ]

  -- What became of a flag, if no trigger of the guard condition came in between.
  flag_read :
      (g : ℕ) (w w' : World D) (as' bs : List (Option ℕ)) (meanwhile : Bool)
      → (meanwhile ≡ false
          → (IsClear g w → holds_pointer g bs ≡ false)
            × (holds_pointer g as' ≡ true → IsClear g w'))
      → (meanwhile ≡ true)
        ⊎ (((IsClear g w') ⊎ (holds_pointer g as' ≡ false))
            × (((w.guards g).has_triggered ≡ true) ⊎ (holds_pointer g bs ≡ false)))
  flag_read g w w' as' bs true h = inl refl
  flag_read g w w' as' bs false h = inr (
    elim (Bool-cases (holds_pointer g as')) [ inl k ↦ inl ((h refl).1 k) | inr k ↦ inr k ],
    elim (Bool-cases (w.guards g).has_triggered) [ inl k ↦ inl k | inr k ↦ inr ((h refl).0 k) ],
  )

  -- The flag after the wait and the loops.
  unlocked_flags :
      (g : ℕ) (args args' : WaitArgs) (w w' : World D) (rest : List (Event D))
      (gaps : List (List (Event D)))
      → any_triggers g (rest ∷ gaps) ≡ false
      → (any_triggers g gaps ≡ false
          → FlagsRead g
              (run rest w)
              (array args.guard_conditions)
              (array args'.guard_conditions, ([], w')))
      → (IsClear g w → holds_pointer g (array args'.guard_conditions) ≡ false)
        × (holds_pointer g (array args.guard_conditions) ≡ true → IsClear g w')
  unlocked_flags g args args' w w' rest gaps q h =
      let (clear, reads) = h (ground arith) in
      ((λ k. (clear (run-IsClear g rest w (ground arith) k)).1), reads)

  -- Let no other thread take data from the call on. When rmw_wait returns from its wait, which ended as
  -- the specification of the wait says, then, whatever other threads deliver and trigger, also between
  -- the steps of the loops that detach: each entry of the arrays of subscriptions, clients and services
  -- is left in its place, and its listener has data on return, or it is null, and its listener had no
  -- data when the wait ended; and a guard condition of the wait set that was triggered when the wait
  -- ended is left in the array. If it is not triggered after the wait ended, its flag is clear on
  -- return, and it is left only if it was triggered when the wait ended.
  pub wait_on_entries :
      (c : ℕ) (args args' : WaitArgs) (t : Option Timeout) (during : List (Event D))
      (gaps : List (List (Event D))) (w w' : World D) (r : RmwRet) (g : ℕ)
      → All NoTake during
      → Undisturbed gaps
      → wait_on c args t during gaps w ≡ returned r args' w'
      → (attached : World D) × (waited : Bool × World D × List (Event D)) × (attach_all c args w
          ≡ some attached)
        × (wait_spec args t during attached ≡ some waited)
        × EachLeft waited.1 w' (array args.subscriptions) (array args'.subscriptions)
        × EachLeft waited.1 w' (array args.clients) (array args'.clients)
        × EachLeft waited.1 w' (array args.services) (array args'.services)
        × (((waited.1.guards g).has_triggered ≡ false)
            ⊎ (holds_pointer g (array args.guard_conditions) ≡ false)
            ⊎ (holds_pointer g (array args'.guard_conditions) ≡ true))
        × ((any_triggers g (waited.2 ∷ gaps) ≡ true)
            ⊎ (((IsClear g w') ⊎ (holds_pointer g (array args.guard_conditions) ≡ false))
                × (((waited.1.guards g).has_triggered ≡ true)
                    ⊎ (holds_pointer g (array args'.guard_conditions) ≡ false))))
  wait_on_entries c args args' t during gaps w w' r g n ns h =
      let (attached, waited, detached, a, e, d, e₁, e₂, _) =
        wait_on_steps c args args' t during gaps w w' r h in
      let more = wait-NoTake c args t during attached waited n e in
      let grows = run-Grows waited.2 waited.1 more in
      let left_then : AllLeft args (run waited.2 waited.1) (args', w') =
        rw (e₁, e₂) (detach_all-AllLeft args gaps (run waited.2 waited.1) detached ns d) in
      let (subscriptions, clients, services, noticed) = left_then in
      let later = run-StaysSet waited.2 waited.1 in
      let unlocked = run waited.2 waited.1 in
      (
        attached,
        waited,
        a,
        sym (wait-wait_spec c args t during w attached a) ∙ e,
        EachLeft-wider waited.1 unlocked w' w' _ _ grows (λ p k. k) subscriptions,
        EachLeft-wider waited.1 unlocked w' w' _ _ grows (λ p k. k) clients,
        EachLeft-wider waited.1 unlocked w' w' _ _ grows (λ p k. k) services,
        guard_left waited.1 g (array args.guard_conditions) (array args'.guard_conditions)
            (λ t. noticed g (later g t)),
        flag_read g waited.1 w' (array args.guard_conditions) (array args'.guard_conditions)
            (any_triggers g (waited.2 ∷ gaps))
            (λ q.
              unlocked_flags g args args' waited.1 w' waited.2 gaps q
                (λ t'. rw (e₁, e₂) (detach_all-FlagsRead g args gaps unlocked detached t' d))),
      )
