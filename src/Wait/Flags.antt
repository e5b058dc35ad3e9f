-- ===== src/Wait/Flags.antt =====
-- The flags of the guard conditions in the detach loops of rmw_wait, if other threads do not trigger a
-- guard condition meanwhile.
use mathlib.Core.Path.{subst}
use rmw_dps.Prelude.{
  >>=-eq-some, ℕ, ◌≡◌, refl, Bool, true, false, ◌||◌, ◌==◌, List, [], ◌∷◌, Option, none, some,
  arith, if◌then◌else◌, Bool-cases, inl, inr,
}
use rmw_dps.Listener.{detach_condition}
use rmw_dps.GuardCondition.{GuardCondition, get_has_triggered, trigger}
use rmw_dps.GuardCondition
use rmw_dps.Wait.State.{
  Pointers, WaitArgs, update, World, Event, delivered, triggered, taken, at_listener, at_guard,
  array, step, run,
}
use rmw_dps.Wait.{between, detach_listeners, detach_guards, detach_all, on_array}
use rmw_dps.Wait.Detach.{holds_pointer, some_inj}

module _ {D : Type 0} (g : ℕ) where
  -- The event triggers the guard condition; some event does.
  abbrev pub triggers : Event D → Bool
  triggers (delivered p d) = false
  triggers (triggered p) = p == g
  triggers (taken p) = false

  abbrev pub some_triggers : List (Event D) → Bool
  some_triggers [] = false
  some_triggers (e ∷ es) = triggers e || some_triggers es

  abbrev pub any_triggers : List (List (Event D)) → Bool
  any_triggers [] = false
  any_triggers (es ∷ gaps) = some_triggers es || any_triggers gaps

  abbrev pub IsClear : World D → Type 0
  IsClear w = (w.guards g).has_triggered ≡ false

  step-IsClear : (e : Event D) (w : World D) → triggers e ≡ false → IsClear w → IsClear (step e w).0
  unfolding step update trigger
  step-IsClear (delivered q d) w t h = h
  step-IsClear (triggered q) w t h = ground (arith, h, t)
  step-IsClear (taken q) w t h = h

  pub run-IsClear :
      (es : List (Event D)) (w : World D)
      → some_triggers es ≡ false
      → IsClear w
      → IsClear (run es w)
  unfolding run
  run-IsClear [] w t h = h
  run-IsClear (e ∷ es) w t h =
      run-IsClear es (step e w).0 (ground arith) (step-IsClear e w (ground arith) h)

  between-IsClear :
      (gaps : List (List (Event D))) (w : World D)
      → any_triggers gaps ≡ false
      → IsClear w
      → IsClear (between gaps w).0
  unfolding between
  between-IsClear [] w t h = h
  between-IsClear (es ∷ gaps) w t h = run-IsClear es w (ground arith) h

  between-any_triggers :
      (gaps : List (List (Event D))) (w : World D)
      → any_triggers gaps ≡ false
      → any_triggers (between gaps w).1 ≡ false
  unfolding between
  between-any_triggers [] w t = refl
  between-any_triggers (es ∷ gaps) w t = ground arith

  -- The loop keeps a clear flag clear, and there are no triggers in the gaps that are left.
  abbrev pub Calm : World D → List (List (Event D)) × World D → Type 0
  Calm w s = (any_triggers s.0 ≡ false) × (IsClear w → IsClear s.1)

  detach_listeners-Calm :
      (ps : List (Option ℕ)) (gaps : List (List (Event D))) (w : World D)
      (r : List (Option ℕ) × (List (List (Event D)) × World D))
      → any_triggers gaps ≡ false
      → detach_listeners ps gaps w ≡ some r
      → Calm w r.1
  unfolding detach_listeners
  detach_listeners-Calm [] gaps w r t h = subst (λ x. Calm w x.1) (some_inj h) (t, λ k. k)
  detach_listeners-Calm (none ∷ ps) gaps w r t h = absurd (cc h)
  detach_listeners-Calm (some q ∷ ps) gaps w r t h =
      let first = between gaps w in
      let t₁ = between-any_triggers gaps w t in
      let detached = at_listener detach_condition q first.0 in
      let second = between first.1 detached in
      let t₂ = between-any_triggers first.1 detached t₁ in
      let (rest, e, f) = >>=-eq-some (detach_listeners ps second.1 second.0) _ h in
      let (t₃, clear) = detach_listeners-Calm ps second.1 second.0 rest t₂ e in
      subst (λ x. Calm w x.1) (some_inj f)
        (t₃, λ k. clear (between-IsClear first.1 detached t₁ (between-IsClear gaps w t k)))

  pub on_array-Calm :
      (a : Pointers) (s : List (List (Event D)) × World D)
      (r : Pointers × (List (List (Event D)) × World D))
      → any_triggers s.0 ≡ false
      → on_array detach_listeners a s ≡ some r
      → Calm s.1 r.1
  on_array-Calm none s r t h = subst (λ x. Calm s.1 x.1) (some_inj h) (t, λ k. k)
  on_array-Calm (some ps) s r t h =
      let (q, e, f) = >>=-eq-some (detach_listeners ps s.0 s.1) _ h in
      subst (λ x. Calm s.1 x.1) (some_inj f) (detach_listeners-Calm ps s.0 s.1 q t e)

  unattached-IsClear :
      (q : ℕ) (w : World D) → IsClear w → IsClear (at_guard GuardCondition.detach_condition q w)
  unfolding update GuardCondition.detach_condition
  unattached-IsClear q w h = ground (arith, h)

  read-IsClear :
      (q : ℕ) (w : World D) → IsClear w → IsClear (at_guard (λ x. (get_has_triggered x).0) q w)
  unfolding update get_has_triggered
  read-IsClear q w h = ground (arith, h)

  read_clears :
      (q : ℕ) (w : World D)
      → (q == g) ≡ true
      → IsClear (at_guard (λ x. (get_has_triggered x).0) q w)
  unfolding update get_has_triggered
  read_clears q w h = ground (arith, h)

  not_left :
      (v : World D) (q : ℕ) (rest : List (Option ℕ))
      → IsClear v
      → holds_pointer g rest ≡ false
      → holds_pointer g ((if (get_has_triggered (v.guards q)).1 then some q else none) ∷ rest)
        ≡ false
  unfolding get_has_triggered
  not_left v q rest clear h = elim (Bool-cases (q == g)) [
    | inl e ↦ ground (arith, clear)
    | inr e ↦ ground (arith, h)
  ]

  -- What the loop over guard conditions does with a flag: one that is clear stays clear, and its guard
  -- condition is not left; and the flag of a guard condition of the array is clear in the end.
  abbrev pub FlagsRead :
      World D → List (Option ℕ) → List (Option ℕ) × (List (List (Event D)) × World D) → Type 0
  FlagsRead w ps r =
      (IsClear w → IsClear r.1.1 × (holds_pointer g r.0 ≡ false))
      × (holds_pointer g ps ≡ true → IsClear r.1.1)

  detach_guards-FlagsRead :
      (ps : List (Option ℕ)) (gaps : List (List (Event D))) (w : World D)
      (r : List (Option ℕ) × (List (List (Event D)) × World D))
      → any_triggers gaps ≡ false
      → detach_guards ps gaps w ≡ some r
      → FlagsRead w ps r
  unfolding detach_guards
  detach_guards-FlagsRead [] gaps w r t h =
      subst (FlagsRead w []) (some_inj h) ((λ k. (k, refl)), λ k. absurd (cc k))
  detach_guards-FlagsRead (none ∷ ps) gaps w r t h = absurd (cc h)
  detach_guards-FlagsRead (some q ∷ ps) gaps w r t h =
      let first = between gaps w in
      let t₁ = between-any_triggers gaps w t in
      let detached = at_guard GuardCondition.detach_condition q first.0 in
      let second = between first.1 detached in
      let t₂ = between-any_triggers first.1 detached t₁ in
      let read = at_guard (λ x. (get_has_triggered x).0) q second.0 in
      let (rest, e, f) = >>=-eq-some (detach_guards ps second.1 read) _ h in
      let (clear, reads) = detach_guards-FlagsRead ps second.1 read rest t₂ e in
      let at_read : IsClear w → IsClear second.0 = λ k.
        between-IsClear first.1 detached t₁
          (unattached-IsClear q first.0 (between-IsClear gaps w t k)) in
      subst (FlagsRead w (some q ∷ ps)) (some_inj f) (
        (λ k. (
          (clear (read-IsClear q second.0 (at_read k))).0,
          not_left second.0 q rest.0 (at_read k) (clear (read-IsClear q second.0 (at_read k))).1,
        )),
        λ k. elim (Bool-cases (q == g)) [
          | inl same ↦ (clear (read_clears q second.0 same)).0
          | inr other ↦ reads (ground arith)
        ],
      )

  pub on_guards-FlagsRead :
      (a : Pointers) (s : List (List (Event D)) × World D)
      (r : Pointers × (List (List (Event D)) × World D))
      → any_triggers s.0 ≡ false
      → on_array detach_guards a s ≡ some r
      → FlagsRead s.1 (array a) (array r.0, r.1)
  on_guards-FlagsRead none s r t h =
      subst (λ x. FlagsRead s.1 [] (array x.0, x.1)) (some_inj h)
        ((λ k. (k, refl)), λ k. absurd (cc k))
  on_guards-FlagsRead (some ps) s r t h =
      let (q, e, f) = >>=-eq-some (detach_guards ps s.0 s.1) _ h in
      subst (λ x. FlagsRead s.1 ps (array x.0, x.1)) (some_inj f)
        (detach_guards-FlagsRead ps s.0 s.1 q t e)

  -- The flag after the four loops.
  pub detach_all-FlagsRead :
      (args : WaitArgs) (gaps : List (List (Event D))) (w : World D) (r : WaitArgs × World D)
      → any_triggers gaps ≡ false
      → detach_all args gaps w ≡ some r
      → FlagsRead w (array args.guard_conditions) (array r.0.guard_conditions, ([], r.1))
  unfolding detach_all
  detach_all-FlagsRead args gaps w r t h =
      let (r₁, e₁, f₁) = >>=-eq-some (on_array detach_listeners args.subscriptions (gaps, w)) _ h in
      let (r₂, e₂, f₂) = >>=-eq-some (on_array detach_listeners args.clients r₁.1) _ f₁ in
      let (r₃, e₃, f₃) = >>=-eq-some (on_array detach_listeners args.services r₂.1) _ f₂ in
      let (r₄, e₄, f₄) = >>=-eq-some (on_array detach_guards args.guard_conditions r₃.1) _ f₃ in
      let (t₁, c₁) = on_array-Calm args.subscriptions (gaps, w) r₁ t e₁ in
      let (t₂, c₂) = on_array-Calm args.clients r₁.1 r₂ t₁ e₂ in
      let (t₃, c₃) = on_array-Calm args.services r₂.1 r₃ t₂ e₃ in
      let (clear, reads) = on_guards-FlagsRead args.guard_conditions r₃.1 r₄ t₃ e₄ in
      subst (λ x. FlagsRead w (array args.guard_conditions) (array x.0.guard_conditions, ([], x.1)))
        (some_inj f₄) ((λ k. clear (c₃ (c₂ (c₁ k)))), reads)
