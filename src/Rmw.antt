-- ===== src/Rmw.antt =====
-- What the rmw interface of rmw_dps_cpp/src passes: return codes, and node handles.
use rmw_dps.Prelude.{Bool, true, false, Option}

-- rmw_ret_t: RMW_RET_OK, RMW_RET_ERROR, RMW_RET_TIMEOUT, RMW_RET_INVALID_ARGUMENT, RMW_RET_BAD_ALLOC,
-- RMW_RET_UNSUPPORTED, RMW_RET_INCORRECT_RMW_IMPLEMENTATION
pub data RmwRet : Type 0 where
  ok error timeout invalid_argument bad_alloc unsupported incorrect_rmw_implementation : RmwRet

-- A handle: whether its implementation_identifier is that of this implementation, and its data.
pub record Handle {ℓ} (A : Type ℓ) : Type ℓ where
  pub ours : Bool
  pub data_ : Option A

unfoldable pub is_ok : RmwRet → Bool
is_ok ok = true
is_ok error = false
is_ok timeout = false
is_ok invalid_argument = false
is_ok bad_alloc = false
is_ok unsupported = false
is_ok incorrect_rmw_implementation = false
