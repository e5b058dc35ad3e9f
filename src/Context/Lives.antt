-- ===== src/Context/Lives.antt =====
-- The life of an options structure in rmw_dps_cpp/src/rmw_init.cpp, call by call.
use rmw_dps.Prelude.{
  ◌≢◌, arith, Bool-cases, Bool, true, false, Option, some, ◌≡◌, refl, ◌⊎◌, inl, inr,
}
use rmw_dps.Rmw.{RmwRet, ok, invalid_argument, incorrect_rmw_implementation}
use rmw_dps.Context.{
  Identifier, unset, ours_, other, InitOptions, is_set, is_ours, rmw_init_options_init,
  rmw_init_options_copy, rmw_init_options_fini,
}

-- A call on one options structure: it is initialised, it is copied to, or it is finalised.
pub data OptionsCall : Type 0 where
  init : Bool → OptionsCall
  copy_from : InitOptions → OptionsCall
  fini : OptionsCall

module _ (zero_options : InitOptions) where
  unfoldable pub options_call : OptionsCall → InitOptions → RmwRet × Option InitOptions
  options_call (init valid) options = rmw_init_options_init (some options) valid
  options_call (copy_from src) options = rmw_init_options_copy (some src) (some options)
  options_call fini options = rmw_init_options_fini zero_options (some options)

  -- What the call is for: to fill a structure that is not set, or to clear one of this
  -- implementation.
  abbrev pub Succeeds : OptionsCall → InitOptions → Type 0
  Succeeds (init valid) options = (valid ≡ true) × (options.implementation_identifier ≡ unset)
  Succeeds (copy_from src) options =
      (src.implementation_identifier ≡ ours_) × (options.implementation_identifier ≡ unset)
  Succeeds fini options =
      (options.valid_allocator ≡ true) × (options.implementation_identifier ≡ ours_)

  -- What a call that succeeds leaves.
  abbrev pub Leaves : OptionsCall → InitOptions → Type 0
  Leaves (init valid) after =
      (after.implementation_identifier ≡ ours_)
      × (after.valid_allocator ≡ true)
      × (after.instance_id ≡ 0)
      × (after.has_impl ≡ false)
  Leaves (copy_from src) after = after ≡ src
  Leaves fini after = after ≡ zero_options

  is_set_lem : (i : Identifier) → is_set i ≡ false → i ≡ unset
  unfolding is_set
  is_set_lem unset h = refl
  is_set_lem ours_ h = cc
  is_set_lem other h = cc

  is_ours_lem : (i : Identifier) → is_ours i ≡ true → i ≡ ours_
  unfolding is_ours
  is_ours_lem unset h = cc
  is_ours_lem ours_ h = refl
  is_ours_lem other h = cc

  -- The call returns another code, and the structure is as it was.
  abbrev pub Refused : OptionsCall → InitOptions → Type 0
  Refused k options =
      (((options_call k options).0 ≡ invalid_argument)
        ⊎ ((options_call k options).0 ≡ incorrect_rmw_implementation))
      × ((options_call k options).1 ≡ some options)

  unset_is_set : (i : Identifier) → is_set i ≡ true → i ≢ unset
  unfolding is_set
  unset_is_set i h e = ground (arith, rw e at h)

  ours_is_ours : (i : Identifier) → is_ours i ≡ false → i ≢ ours_
  unfolding is_ours
  ours_is_ours i h e = ground (arith, rw e at h)

  -- A call of rmw_init_options_init, rmw_init_options_copy or rmw_init_options_fini on an options
  -- structure returns RMW_RET_OK exactly if the structure is what the call is for: not set, with a valid
  -- allocator or with a source of this implementation, or of this implementation with a valid
  -- allocator. It leaves then options of this implementation, the source, or zero-initialized options.
  -- Otherwise it returns RMW_RET_INVALID_ARGUMENT or RMW_RET_INCORRECT_RMW_IMPLEMENTATION, and the
  -- structure is as it was.
  pub options_call_lem :
      (k : OptionsCall) (options : InitOptions)
      → (Succeeds k options
          × ((options_call k options).0 ≡ ok)
          × ((after : InitOptions) × ((options_call k options).1 ≡ some after) × Leaves k after))
        ⊎ ((¬ Succeeds k options) × Refused k options)
  unfolding options_call rmw_init_options_init rmw_init_options_copy rmw_init_options_fini
  options_call_lem (init false) options = inr ((λ h. cc h.0), (inl refl, refl))
  options_call_lem (init true) options =
      elim (Bool-cases (is_set options.implementation_identifier)) [
        | inl e ↦ rw e (inr ((λ h. unset_is_set _ e h.1), (inl refl, refl)))
        | inr e ↦ rw e (inl ((refl, is_set_lem _ e), refl, (_, refl, (refl, refl, refl, refl))))
      ]
  options_call_lem (copy_from src) options =
      elim (Bool-cases (is_ours src.implementation_identifier)) [
        | inr e ↦ rw e (inr ((λ h. ours_is_ours _ e h.0), (inr refl, refl)))
        | inl e ↦ elim (Bool-cases (is_set options.implementation_identifier)) [
          | inl e' ↦ rw (e, e') (inr ((λ h. unset_is_set _ e' h.1), (inl refl, refl)))
          | inr e' ↦ rw (e, e') (inl ((is_ours_lem _ e, is_set_lem _ e'), refl, (src, refl, refl)))
        ]
      ]
  options_call_lem fini options = elim (Bool-cases options.valid_allocator) [
    | inr e ↦ rw e (inr ((λ h. cc h.0), (inl refl, refl)))
    | inl e ↦ elim (Bool-cases (is_ours options.implementation_identifier)) [
      | inl e' ↦ rw (e, e') (inl ((refl, is_ours_lem _ e'), refl, (zero_options, refl, refl)))
      | inr e' ↦ rw (e, e') (inr ((λ h. ours_is_ours _ e' h.1), (inr refl, refl)))
    ]
  ]
