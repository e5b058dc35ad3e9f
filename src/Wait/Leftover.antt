-- ===== src/Wait/Leftover.antt =====
-- The events that are left when rmw_wait ends its wait.
use rmw_dps.Prelude.{
  ℕ, ◌≡◌, Bool, List, [], ◌∷◌, Option, none, some, arith, All, ◌⊎◌, inl, inr, Bool-cases,
  Option-cases, ltb, ◌||◌, ◌&&◌,
}
use rmw_dps.Wait.State.{notifies, WaitArgs, Timeout, World, Event, step, check_wait_set_for_data}
use rmw_dps.Wait.{sleep, wait}
use rmw_dps.Wait.Meanwhile.{NoTake}

module _ {D : Type 0} where
  -- The events that are left after a sleep are among those of before.
  sleep_left :
      (c : ℕ) (args : WaitArgs) (e : Event D) (es : List (Event D)) (w w' : World D)
      (rest : List (Event D))
      → sleep c args (e ∷ es) w ≡ some (w', rest)
      → (rest ≡ es) ⊎ (sleep c args es (step e w).0 ≡ some (w', rest))
  unfolding sleep
  sleep_left c args e es w w' rest h =
      let wakes = notifies c (step e w).1 && check_wait_set_for_data args (step e w).0 in
      elim (Bool-cases wakes) [ inl t ↦ inl (ground arith) | inr f ↦ inr (ground arith) ]

  sleep-NoTake :
      (c : ℕ) (args : WaitArgs) (es : List (Event D)) (w w' : World D) (rest : List (Event D))
      → All NoTake es
      → sleep c args es w ≡ some (w', rest)
      → All NoTake rest
  unfolding sleep
  sleep-NoTake c args [] w w' rest n h = absurd (cc h)
  sleep-NoTake c args (e ∷ es) w w' rest (n, ns) h = elim (sleep_left c args e es w w' rest h) [
    | inl same ↦ rw same ns
    | inr later ↦ sleep-NoTake c args es (step e w).0 w' rest ns later
  ]

  -- The events that are left after the wait: all of them, none, or those after a sleep.
  wait_left :
      (c : ℕ) (args : WaitArgs) (t : Option Timeout) (es : List (Event D)) (w : World D)
      (r : Bool × World D × List (Event D))
      → wait c args t es w ≡ some r
      → (r.2 ≡ es) ⊎ (r.2 ≡ []) ⊎ ((w' : World D) × (sleep c args es w ≡ some (w', r.2)))
  unfolding wait
  wait_left c args none es w r h = elim (Bool-cases (check_wait_set_for_data args w)) [
    | inl e ↦ inl (ground arith)
    | inr e ↦ elim (Option-cases (sleep c args es w)) [
      | inl f ↦ absurd (ground arith)
      | inr ((w', rest), f) ↦ inr (inr (w', ground arith))
    ]
  ]
  wait_left c args (some t) es w r h = elim (Bool-cases (check_wait_set_for_data args w)) [
    | inl e ↦ inl (ground arith)
    | inr e ↦ elim (Bool-cases (ltb 0 t.sec || ltb 0 t.nsec)) [
      | inr k ↦ inl (ground arith)
      | inl k ↦ elim (Option-cases (sleep c args es w)) [
        | inl f ↦ inr (inl (ground arith))
        | inr ((w', rest), f) ↦ inr (inr (w', ground arith))
      ]
    ]
  ]

  pub wait-NoTake :
      (c : ℕ) (args : WaitArgs) (t : Option Timeout) (es : List (Event D)) (w : World D)
      (r : Bool × World D × List (Event D))
      → All NoTake es
      → wait c args t es w ≡ some r
      → All NoTake r.2
  wait-NoTake c args t es w r n h = elim (wait_left c args t es w r h) [
    | inl same ↦ rw same n
    | inr (inl none_left) ↦ rw none_left tt
    | inr (inr (w', e)) ↦ sleep-NoTake c args es w w' r.2 n e
  ]
