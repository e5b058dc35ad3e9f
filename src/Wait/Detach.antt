-- ===== src/Wait/Detach.antt =====
-- The detach loops of rmw_wait, while other threads go on: which entries stay.
use mathlib.Core.Path.{subst}
use rmw_dps.Prelude.{
  >>=-eq-some, ℕ, ◌≡◌, refl, Bool, true, false, ◌||◌, ◌==◌, List, [], ◌∷◌, Option, none, some,
  arith, if◌then◌else◌, ◌⊎◌, inl, inr, Bool-cases,
}
use rmw_dps.Listener.{has_data, detach_condition}
use rmw_dps.GuardCondition.{GuardCondition, get_has_triggered, trigger}
use rmw_dps.GuardCondition
use rmw_dps.Wait.State.{update, World, Event, at_listener, at_guard}
use rmw_dps.Wait.{between, detach_listeners, detach_guards}
use rmw_dps.Wait.Meanwhile.{Grows, StaysSet, Undisturbed, between-Grows, between-StaysSet}

pub some_inj {ℓ} : {A : Type ℓ} {a b : A} → some a ≡ some b → a ≡ b
some_inj h = cc h

-- Whether some entry is the pointer.
abbrev pub holds_pointer : ℕ → List (Option ℕ) → Bool
holds_pointer p [] = false
holds_pointer p (none ∷ ps) = holds_pointer p ps
holds_pointer p (some q ∷ ps) = q == p || holds_pointer p ps

module _ {D : Type 0} where
  -- What becomes of an entry of listeners: it is left, and its listener has data in the end, or it is
  -- null, and its listener had no data at the start.
  abbrev pub OneLeft : World D → World D → Option ℕ → Option ℕ → Type 0
  OneLeft w w' none b = ⊥
  OneLeft w w' (some p) b =
      ((b ≡ some p) × (has_data (w'.listeners p) ≡ true))
      ⊎ ((b ≡ none) × (has_data (w.listeners p) ≡ false))

  -- Each entry in its place.
  abbrev pub EachLeft : World D → World D → List (Option ℕ) → List (Option ℕ) → Type 0
  EachLeft w w' [] [] = Unit
  EachLeft w w' [] (b ∷ bs) = ⊥
  EachLeft w w' (a ∷ as') [] = ⊥
  EachLeft w w' (a ∷ as') (b ∷ bs) = OneLeft w w' a b × EachLeft w w' as' bs

  OneLeft-wider :
      (v w w' v' : World D) (a b : Option ℕ)
      → Grows v w
      → Grows w' v'
      → OneLeft w w' a b
      → OneLeft v v' a b
  OneLeft-wider v w w' v' none b g g' e = e
  OneLeft-wider v w w' v' (some p) b g g' (inl (e, h)) = inl (e, g' p h)
  OneLeft-wider v w w' v' (some p) b g g' (inr (e, h)) = inr (
    e,
    elim (Bool-cases (has_data (v.listeners p))) [ inl t ↦ absurd (cc (g p t, h)) | inr f ↦ f ],
  )

  pub EachLeft-wider :
      (v w w' v' : World D) (as' bs : List (Option ℕ))
      → Grows v w
      → Grows w' v'
      → EachLeft w w' as' bs
      → EachLeft v v' as' bs
  EachLeft-wider v w w' v' [] [] g g' e = e
  EachLeft-wider v w w' v' [] (b ∷ bs) g g' e = e
  EachLeft-wider v w w' v' (a ∷ as') [] g g' e = e
  EachLeft-wider v w w' v' (a ∷ as') (b ∷ bs) g g' (e, es) =
      (OneLeft-wider v w w' v' a b g g' e, EachLeft-wider v w w' v' as' bs g g' es)

  detach_Grows : (q : ℕ) (w : World D) → Grows w (at_listener detach_condition q w)
  unfolding update detach_condition has_data
  detach_Grows q w p h = ground (arith, h)

  -- The entry, by whether its listener has data at some time between.
  OneLeft-at :
      (w v w' : World D) (q : ℕ)
      → Grows w v
      → Grows v w'
      → OneLeft w w' (some q) (if has_data (v.listeners q) then some q else none)
  OneLeft-at w v w' q g g' = elim (Bool-cases (has_data (v.listeners q))) [
    | inl t ↦ rw t (inl (refl, g' q t))
    | inr f ↦ rw f (
        inr (
          refl,
          elim (Bool-cases (has_data (w.listeners q))) [
            | inl t ↦ absurd (cc (g q t, f))
            | inr f' ↦ f'
          ],
        ))
  ]

  -- What a loop over listeners leaves: the entries, the gaps that are left and the state.
  abbrev pub Detached :
      World D → List (Option ℕ) → List (Option ℕ) × (List (List (Event D)) × World D) → Type 0
  Detached w ps r = EachLeft w r.1.1 ps r.0 × Grows w r.1.1 × StaysSet w r.1.1 × Undisturbed r.1.0

  pub detach_listeners-Detached :
      (ps : List (Option ℕ)) (gaps : List (List (Event D))) (w : World D)
      (r : List (Option ℕ) × (List (List (Event D)) × World D))
      → Undisturbed gaps
      → detach_listeners ps gaps w ≡ some r
      → Detached w ps r
  unfolding detach_listeners
  detach_listeners-Detached [] gaps w r n h =
      subst (Detached w []) (some_inj h) (tt, (λ p k. k), (λ p k. k), n)
  detach_listeners-Detached (none ∷ ps) gaps w r n h = absurd (cc h)
  detach_listeners-Detached (some q ∷ ps) gaps w r n h =
      let first = between gaps w in
      let (g₁, n₁) = between-Grows gaps w n in
      let detached = at_listener detach_condition q first.0 in
      let second = between first.1 detached in
      let (g₂, n₂) = between-Grows first.1 detached n₁ in
      let (rest, e, f) = >>=-eq-some (detach_listeners ps second.1 second.0) _ h in
      let (es, g₃, s₃, n₃) = detach_listeners-Detached ps second.1 second.0 rest n₂ e in
      let grows : Grows w second.0 = λ p k. g₂ p (detach_Grows q first.0 p (g₁ p k)) in
      let stays : StaysSet w second.0 =
        λ p k. between-StaysSet first.1 detached p (between-StaysSet gaps w p k) in
      subst (Detached w (some q ∷ ps)) (some_inj f) (
        (
          OneLeft-at w second.0 rest.1.1 q grows g₃,
          EachLeft-wider w second.0 rest.1.1 rest.1.1 ps rest.0 grows (λ p k. k) es,
        ),
        (λ p k. g₃ p (grows p k)),
        (λ p k. s₃ p (stays p k)),
        n₃,
      )

  unattached_StaysSet :
      (q : ℕ) (w : World D) → StaysSet w (at_guard GuardCondition.detach_condition q w)
  unfolding update GuardCondition.detach_condition
  unattached_StaysSet q w p h = ground (arith, h)

  read_StaysSet :
      (q p : ℕ) (w : World D)
      → (q == p) ≡ false
      → (w.guards p).has_triggered ≡ true
      → ((at_guard (λ g. (get_has_triggered g).0) q w).guards p).has_triggered ≡ true
  unfolding update
  read_StaysSet q p w ne h = ground (arith, h)

  -- What the loop over guard conditions leaves: data stays, and a guard condition whose flag was set
  -- is left.
  abbrev pub Noticed :
      World D → List (Option ℕ) → List (Option ℕ) × (List (List (Event D)) × World D) → Type 0
  Noticed w ps r =
      Grows w r.1.1
      × ((p : ℕ)
          → (w.guards p).has_triggered ≡ true
          → holds_pointer p ps ≡ true
          → holds_pointer p r.0 ≡ true)

  noticed_at :
      (v : World D) (q p : ℕ) (ps rest : List (Option ℕ))
      → (v.guards p).has_triggered ≡ true
      → ((q == p) ≡ false → holds_pointer p ps ≡ true → holds_pointer p rest ≡ true)
      → holds_pointer p (some q ∷ ps) ≡ true
      → holds_pointer p ((if (get_has_triggered (v.guards q)).1 then some q else none) ∷ rest)
        ≡ true
  unfolding get_has_triggered
  noticed_at v q p ps rest t later h = elim (Bool-cases (q == p)) [
    | inl e ↦ ground (arith, t)
    | inr e ↦ ground (arith, later e (ground arith))
  ]

  pub detach_guards-Noticed :
      (ps : List (Option ℕ)) (gaps : List (List (Event D))) (w : World D)
      (r : List (Option ℕ) × (List (List (Event D)) × World D))
      → Undisturbed gaps
      → detach_guards ps gaps w ≡ some r
      → Noticed w ps r
  unfolding detach_guards
  detach_guards-Noticed [] gaps w r n h =
      subst (Noticed w []) (some_inj h) ((λ p k. k), λ p t k. absurd (cc k))
  detach_guards-Noticed (none ∷ ps) gaps w r n h = absurd (cc h)
  detach_guards-Noticed (some q ∷ ps) gaps w r n h =
      let first = between gaps w in
      let (g₁, n₁) = between-Grows gaps w n in
      let detached = at_guard GuardCondition.detach_condition q first.0 in
      let second = between first.1 detached in
      let (g₂, n₂) = between-Grows first.1 detached n₁ in
      let read = at_guard (λ g. (get_has_triggered g).0) q second.0 in
      let (rest, e, f) = >>=-eq-some (detach_guards ps second.1 read) _ h in
      let (g₃, s₃) = detach_guards-Noticed ps second.1 read rest n₂ e in
      let stays : StaysSet w second.0 = λ p k.
        between-StaysSet first.1 detached p
          (unattached_StaysSet q first.0 p (between-StaysSet gaps w p k)) in
      subst (Noticed w (some q ∷ ps)) (some_inj f) (
        (λ p k. g₃ p (g₂ p (g₁ p k))),
        λ p t.
            noticed_at second.0 q p ps rest.0 (stays p t)
              (λ ne. s₃ p (read_StaysSet q p second.0 ne (stays p t))),
      )
