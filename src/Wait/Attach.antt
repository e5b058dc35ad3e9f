-- ===== src/Wait/Attach.antt =====
-- The attach loops of rmw_wait in rmw_dps_cpp/src/rmw_wait.cpp, and what they leave attached.
use rmw_dps.Prelude.{ℕ, ◌≡◌, List, [], ◌∷◌, Option, none, some, arith, All, All-imp}
use rmw_dps.Listener.{Listener, on_publication, has_data, take_next_data}
use rmw_dps.Listener
use rmw_dps.GuardCondition.{GuardCondition, trigger}
use rmw_dps.GuardCondition
use rmw_dps.Wait.State.{WaitArgs, World, array}
use rmw_dps.Wait.{attach_listeners, attach_guards, attach_all}

module _ {D : Type 0} where
  -- Every pointer of the array is set, and what it points to is attached to the condition `c`.
  abbrev pub AttachedListener : ℕ → World D → Option ℕ → Type 0
  AttachedListener c w none = ⊥
  AttachedListener c w (some p) = (w.listeners p).condition ≡ some c

  abbrev pub AttachedGuard : ℕ → World D → Option ℕ → Type 0
  AttachedGuard c w none = ⊥
  AttachedGuard c w (some p) = (w.guards p).condition ≡ some c

  pub record IsAttached (c : ℕ) (args : WaitArgs) (w : World D) : Type 0 where
    pub subscriptions : All (AttachedListener c w) (array args.subscriptions)
    pub clients : All (AttachedListener c w) (array args.clients)
    pub services : All (AttachedListener c w) (array args.services)
    pub guards : All (AttachedGuard c w) (array args.guard_conditions)

  -- What attaching some listeners leaves: every attached listener stays attached, and the guard
  -- conditions are the same.
  attach_listeners_keeps :
      (c : ℕ) (ps : List (Option ℕ)) (w w' : World D)
      → attach_listeners c ps w ≡ some w'
      → ((p : ℕ) → (w.listeners p).condition ≡ some c → (w'.listeners p).condition ≡ some c)
        × (w'.guards ≡ w.guards)
  unfolding attach_listeners Listener.attach_condition
  attach_listeners_keeps c [] w w' h = (λ p a. ground (arith, a), ground arith)
  attach_listeners_keeps c (none ∷ ps) w w' h = absurd (cc)
  attach_listeners_keeps c (some q ∷ ps) w w' h =
      let (k, g) = attach_listeners_keeps c ps _ w' h in (λ p a. k p (ground arith), g)

  attach_listeners_attaches :
      (c : ℕ) (ps : List (Option ℕ)) (w w' : World D)
      → attach_listeners c ps w ≡ some w'
      → All (AttachedListener c w') ps
  unfolding attach_listeners Listener.attach_condition
  attach_listeners_attaches c [] w w' h = tt
  attach_listeners_attaches c (none ∷ ps) w w' h = absurd (cc)
  attach_listeners_attaches c (some q ∷ ps) w w' h = (
    (attach_listeners_keeps c ps _ w' h).0 q (ground arith),
    attach_listeners_attaches c ps _ w' h,
  )

  attach_guards_keeps :
      (c : ℕ) (ps : List (Option ℕ)) (w w' : World D)
      → attach_guards c ps w ≡ some w'
      → ((p : ℕ) → (w.guards p).condition ≡ some c → (w'.guards p).condition ≡ some c)
        × (w'.listeners ≡ w.listeners)
  unfolding attach_guards GuardCondition.attach_condition
  attach_guards_keeps c [] w w' h = (λ p a. ground (arith, a), ground arith)
  attach_guards_keeps c (none ∷ ps) w w' h = absurd (cc)
  attach_guards_keeps c (some q ∷ ps) w w' h =
      let (k, g) = attach_guards_keeps c ps _ w' h in (λ p a. k p (ground arith), g)

  attach_guards_attaches :
      (c : ℕ) (ps : List (Option ℕ)) (w w' : World D)
      → attach_guards c ps w ≡ some w'
      → All (AttachedGuard c w') ps
  unfolding attach_guards GuardCondition.attach_condition
  attach_guards_attaches c [] w w' h = tt
  attach_guards_attaches c (none ∷ ps) w w' h = absurd (cc)
  attach_guards_attaches c (some q ∷ ps) w w' h =
      ((attach_guards_keeps c ps _ w' h).0 q (ground arith), attach_guards_attaches c ps _ w' h)

  attach_all_steps :
      (c : ℕ) (args : WaitArgs) (w w' : World D)
      → attach_all c args w ≡ some w'
      → (w₁ : World D) × (w₂ : World D) × (w₃ : World D) × (attach_listeners c
            (array args.subscriptions)
            w
          ≡ some w₁)
        × (attach_listeners c (array args.clients) w₁ ≡ some w₂)
        × (attach_listeners c (array args.services) w₂ ≡ some w₃)
        × (attach_guards c (array args.guard_conditions) w₃ ≡ some w')
  unfolding attach_all
  attach_all_steps c args w w' h = ground arith

  listener_later :
      (c : ℕ) (w w' : World D)
      → ((p : ℕ) → (w.listeners p).condition ≡ some c → (w'.listeners p).condition ≡ some c)
      → (o : Option ℕ) → AttachedListener c w o
      → AttachedListener c w' o
  listener_later c w w' k none a = a
  listener_later c w w' k (some p) a = k p a

  -- What is attached first is still attached at the end.
  pub attach_all-IsAttached :
      (c : ℕ) (args : WaitArgs) (w w' : World D)
      → attach_all c args w ≡ some w'
      → IsAttached c args w'
  attach_all-IsAttached c args w w' h =
      let (w₁, w₂, w₃, e₁, e₂, e₃, e₄) = attach_all_steps c args w w' h in
      let k₂ = (attach_listeners_keeps c _ w₁ w₂ e₂).0 in
      let k₃ = (attach_listeners_keeps c _ w₂ w₃ e₃).0 in
      let same = (attach_guards_keeps c _ w₃ w' e₄).1 in
      let k₄ : (p : ℕ) → (w₃.listeners p).condition ≡ some c → (w'.listeners p).condition ≡ some c =
        λ p a. rw same a in
      record {
        subscriptions =
            All-imp _ _ _ (listener_later c w₁ w' (λ p a. k₄ p (k₃ p (k₂ p a))))
              (attach_listeners_attaches c _ w w₁ e₁);
        clients =
            All-imp _ _ _ (listener_later c w₂ w' (λ p a. k₄ p (k₃ p a)))
              (attach_listeners_attaches c _ w₁ w₂ e₂);
        services =
            All-imp _ _ _ (listener_later c w₃ w' k₄) (attach_listeners_attaches c _ w₂ w₃ e₃);
        guards = attach_guards_attaches c _ w₃ w' e₄;
      }
