-- ===== src/Wait/Meanwhile.antt =====
-- What other threads do while rmw_wait detaches: data that is there stays, if nobody takes it, and flags
-- stay set.
use rmw_dps.Prelude.{ℕ, ◌≡◌, true, List, [], ◌∷◌, arith, All}
use rmw_dps.Listener.{has_data, on_publication}
use rmw_dps.GuardCondition.{trigger}
use rmw_dps.Wait.State.{update, World, Event, delivered, triggered, taken, step, run}
use rmw_dps.Wait.{between}

module _ {D : Type 0} where
  -- The event is not that a thread takes data.
  abbrev pub NoTake : Event D → Type 0
  NoTake (delivered p d) = Unit
  NoTake (triggered p) = Unit
  NoTake (taken p) = ⊥

  -- Data that is there stays there; a flag that is set stays set.
  abbrev pub Grows : World D → World D → Type 0
  Grows w w' = (p : ℕ) → has_data (w.listeners p) ≡ true → has_data (w'.listeners p) ≡ true

  abbrev pub StaysSet : World D → World D → Type 0
  StaysSet w w' = (p : ℕ) → (w.guards p).has_triggered ≡ true → (w'.guards p).has_triggered ≡ true

  step-Grows : (e : Event D) (w : World D) → NoTake e → Grows w (step e w).0
  unfolding step update has_data on_publication
  step-Grows (delivered q d) w n p h = ground (arith, h)
  step-Grows (triggered q) w n p h = h
  step-Grows (taken q) w n p h = absurd n

  step-StaysSet : (e : Event D) (w : World D) → StaysSet w (step e w).0
  unfolding step update trigger
  step-StaysSet (delivered q d) w p h = h
  step-StaysSet (triggered q) w p h = ground (arith, h)
  step-StaysSet (taken q) w p h = h

  pub run-Grows : (es : List (Event D)) (w : World D) → All NoTake es → Grows w (run es w)
  unfolding run
  run-Grows [] w n p h = h
  run-Grows (e ∷ es) w (n, ns) p h = run-Grows es (step e w).0 ns p (step-Grows e w n p h)

  pub run-StaysSet : (es : List (Event D)) (w : World D) → StaysSet w (run es w)
  unfolding run
  run-StaysSet [] w p h = h
  run-StaysSet (e ∷ es) w p h = run-StaysSet es (step e w).0 p (step-StaysSet e w p h)

  -- No data is taken in any of the gaps.
  abbrev pub Undisturbed : List (List (Event D)) → Type 0
  Undisturbed gaps = All (All NoTake) gaps

  pub between-Grows :
      (gaps : List (List (Event D))) (w : World D)
      → Undisturbed gaps
      → Grows w (between gaps w).0 × Undisturbed (between gaps w).1
  unfolding between
  between-Grows [] w n = (λ p h. h, tt)
  between-Grows (es ∷ gaps) w (n, ns) = (run-Grows es w n, ns)

  pub between-StaysSet :
      (gaps : List (List (Event D))) (w : World D) → StaysSet w (between gaps w).0
  unfolding between
  between-StaysSet [] w p h = h
  between-StaysSet (es ∷ gaps) w p h = run-StaysSet es w p h
