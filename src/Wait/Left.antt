-- ===== src/Wait/Left.antt =====
-- What the detach loops of rmw_wait leave in the four arrays, whatever other threads do in between,
-- short of taking data.
use mathlib.Core.Path.{subst}
use rmw_dps.Prelude.{>>=-eq-some, ℕ, ◌≡◌, true, List, none, some}
use rmw_dps.Wait.State.{Pointers, WaitArgs, World, Event, array}
use rmw_dps.Wait.{detach_listeners, detach_guards, detach_all, on_array}
use rmw_dps.Wait.Meanwhile.{Grows, StaysSet, Undisturbed}
use rmw_dps.Wait.Detach.{
  EachLeft, EachLeft-wider, detach_listeners-Detached, Noticed, detach_guards-Noticed,
  holds_pointer, some_inj,
}

module _ {D : Type 0} where
  -- The same for an array that can be missing.
  abbrev ArrayDetached :
      Pointers
      → List (List (Event D)) × World D
      → Pointers × (List (List (Event D)) × World D)
      → Type 0
  ArrayDetached a s r =
      EachLeft s.1 r.1.1 (array a) (array r.0)
      × Grows s.1 r.1.1
      × StaysSet s.1 r.1.1
      × Undisturbed r.1.0

  on_listeners :
      (a : Pointers) (s : List (List (Event D)) × World D)
      (r : Pointers × (List (List (Event D)) × World D))
      → Undisturbed s.0
      → on_array detach_listeners a s ≡ some r
      → ArrayDetached a s r
  on_listeners none s r n h =
      subst (ArrayDetached none s) (some_inj h) (tt, (λ p k. k), (λ p k. k), n)
  on_listeners (some ps) s r n h =
      let (q, e, f) = >>=-eq-some (detach_listeners ps s.0 s.1) _ h in
      subst (ArrayDetached (some ps) s) (some_inj f) (detach_listeners-Detached ps s.0 s.1 q n e)

  abbrev ArrayNoticed :
      Pointers
      → List (List (Event D)) × World D
      → Pointers × (List (List (Event D)) × World D)
      → Type 0
  ArrayNoticed a s r = Noticed s.1 (array a) (array r.0, r.1)

  on_guards :
      (a : Pointers) (s : List (List (Event D)) × World D)
      (r : Pointers × (List (List (Event D)) × World D))
      → Undisturbed s.0
      → on_array detach_guards a s ≡ some r
      → ArrayNoticed a s r
  on_guards none s r n h =
      subst (ArrayNoticed none s) (some_inj h) ((λ p k. k), λ p t k. absurd (cc k))
  on_guards (some ps) s r n h =
      let (q, e, f) = >>=-eq-some (detach_guards ps s.0 s.1) _ h in
      subst (ArrayNoticed (some ps) s) (some_inj f) (detach_guards-Noticed ps s.0 s.1 q n e)

  -- The arrays after the four loops, from the state before them to the state after them.
  abbrev pub AllLeft : WaitArgs → World D → WaitArgs × World D → Type 0
  AllLeft args w r =
      EachLeft w r.1 (array args.subscriptions) (array r.0.subscriptions)
      × EachLeft w r.1 (array args.clients) (array r.0.clients)
      × EachLeft w r.1 (array args.services) (array r.0.services)
      × ((p : ℕ)
          → (w.guards p).has_triggered ≡ true
          → holds_pointer p (array args.guard_conditions) ≡ true
          → holds_pointer p (array r.0.guard_conditions) ≡ true)

  pub detach_all-AllLeft :
      (args : WaitArgs) (gaps : List (List (Event D))) (w : World D) (r : WaitArgs × World D)
      → Undisturbed gaps
      → detach_all args gaps w ≡ some r
      → AllLeft args w r
  unfolding detach_all
  detach_all-AllLeft args gaps w r n h =
      let (r₁, e₁, f₁) = >>=-eq-some (on_array detach_listeners args.subscriptions (gaps, w)) _ h in
      let (r₂, e₂, f₂) = >>=-eq-some (on_array detach_listeners args.clients r₁.1) _ f₁ in
      let (r₃, e₃, f₃) = >>=-eq-some (on_array detach_listeners args.services r₂.1) _ f₂ in
      let (r₄, e₄, f₄) = >>=-eq-some (on_array detach_guards args.guard_conditions r₃.1) _ f₃ in
      let (k₁, g₁, s₁, n₁) = on_listeners args.subscriptions (gaps, w) r₁ n e₁ in
      let (k₂, g₂, s₂, n₂) = on_listeners args.clients r₁.1 r₂ n₁ e₂ in
      let (k₃, g₃, s₃, n₃) = on_listeners args.services r₂.1 r₃ n₂ e₃ in
      let (g₄, noticed) = on_guards args.guard_conditions r₃.1 r₄ n₃ e₄ in
      let w' = r₄.1.1 in
      subst (AllLeft args w) (some_inj f₄) (
        EachLeft-wider w w r₁.1.1 w' _ _ (λ p k. k) (λ p k. g₄ p (g₃ p (g₂ p k))) k₁,
        EachLeft-wider w r₁.1.1 r₂.1.1 w' _ _ g₁ (λ p k. g₄ p (g₃ p k)) k₂,
        EachLeft-wider w r₂.1.1 r₃.1.1 w' _ _ (λ p k. g₂ p (g₁ p k)) g₄ k₃,
        λ p t. noticed p (s₃ p (s₂ p (s₁ p t))),
      )
