-- ===== src/Context.antt =====
-- The options and the context: rmw_dps_cpp/src/rmw_init.cpp. The settings of the logger and of the
-- debug output of DPS are left out. `zero_options` and `zero_context` are what
-- rmw_get_zero_initialized_init_options and rmw_get_zero_initialized_context return.
pub mod Lives
mod Tests
use rmw_dps.Prelude.{ℕ, Bool, true, false, not, Option, none, some, if◌then◌else◌}
use rmw_dps.Rmw.{RmwRet, ok, invalid_argument, incorrect_rmw_implementation}

-- implementation_identifier: null, that of this implementation, or another one.
pub data Identifier : Type 0 where
  unset ours_ other : Identifier

-- rmw_init_options_t; an allocator is valid or not.
pub record InitOptions : Type 0 where
  pub instance_id : ℕ
  pub implementation_identifier : Identifier
  pub valid_allocator : Bool
  pub has_impl : Bool

-- rmw_context_t
pub record RmwContext : Type 0 where
  pub instance_id : ℕ
  pub implementation_identifier : Identifier
  pub has_impl : Bool

-- nullptr != implementation_identifier
unfoldable pub is_set : Identifier → Bool
is_set unset = false
is_set ours_ = true
is_set other = true

-- The test of RMW_CHECK_TYPE_IDENTIFIERS_MATCH.
unfoldable pub is_ours : Identifier → Bool
is_ours unset = false
is_ours ours_ = true
is_ours other = false

-- rmw_init_options_init: the return code, and the options afterwards.
unfoldable pub rmw_init_options_init : Option InitOptions → Bool → RmwRet × Option InitOptions
unfolding is_set
rmw_init_options_init none valid = (invalid_argument, none)
rmw_init_options_init (some options) valid =
    if not valid
    then (invalid_argument, some options)
    else if is_set options.implementation_identifier
    then (invalid_argument, some options)
    else (
      ok,
      some (record {
        instance_id = 0;
        implementation_identifier = ours_;
        valid_allocator = true;
        has_impl = false;
      }),
    )

-- rmw_init_options_copy: the return code, and `*dst` afterwards.
unfoldable pub rmw_init_options_copy :
    Option InitOptions → Option InitOptions → RmwRet × Option InitOptions
unfolding is_set is_ours
rmw_init_options_copy none dst = (invalid_argument, dst)
rmw_init_options_copy (some src) none = (invalid_argument, none)
rmw_init_options_copy (some src) (some dst) =
    if not (is_ours src.implementation_identifier)
    then (incorrect_rmw_implementation, some dst)
    else if is_set dst.implementation_identifier
    then (invalid_argument, some dst)
    else (ok, some src)

-- rmw_init_options_fini
unfoldable pub rmw_init_options_fini :
    InitOptions → Option InitOptions → RmwRet × Option InitOptions
unfolding is_ours
rmw_init_options_fini zero_options none = (invalid_argument, none)
rmw_init_options_fini zero_options (some options) =
    if not options.valid_allocator
    then (invalid_argument, some options)
    else if not (is_ours options.implementation_identifier)
    then (incorrect_rmw_implementation, some options)
    else (ok, some zero_options)

-- rmw_init: the return code, and the context afterwards.
unfoldable pub rmw_init : Option InitOptions → Option RmwContext → RmwRet × Option RmwContext
unfolding is_ours
rmw_init none context = (invalid_argument, context)
rmw_init (some options) none = (invalid_argument, none)
rmw_init (some options) (some context) =
    if is_ours options.implementation_identifier
    then (
      ok,
      some (record {
        instance_id = options.instance_id;
        implementation_identifier = ours_;
        has_impl = false;
      }),
    )
    else (incorrect_rmw_implementation, some context)

-- rmw_shutdown, which changes nothing.
unfoldable pub rmw_shutdown : Option RmwContext → RmwRet
unfolding is_ours
rmw_shutdown none = invalid_argument
rmw_shutdown (some context) =
    if is_ours context.implementation_identifier then ok else incorrect_rmw_implementation

-- rmw_context_fini
unfoldable pub rmw_context_fini : RmwContext → Option RmwContext → RmwRet × Option RmwContext
unfolding is_ours
rmw_context_fini zero_context none = (invalid_argument, none)
rmw_context_fini zero_context (some context) =
    if is_ours context.implementation_identifier
    then (ok, some zero_context)
    else (incorrect_rmw_implementation, some context)
