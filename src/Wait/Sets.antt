-- ===== src/Wait/Sets.antt =====
-- rmw_create_wait_set and rmw_destroy_wait_set of rmw_dps_cpp/src/rmw_wait_set.cpp: what is allocated
-- for a wait set. `none` is undefined behaviour: the construction of an object at a null pointer, or
-- the destruction of one that was not constructed.
use rmw_dps.Prelude.{
  ◌>>=◌, Bool, true, false, not, ◌&&◌, Option, none, some, if◌then◌else◌, ◌≡◌, arith,
}
use rmw_dps.Rmw.{RmwRet, ok, error}

-- The rmw_wait_set_t, the memory behind its `data`, and the CustomWaitsetInfo in that memory.
pub record WaitSetObjects : Type 0 where
  pub handle : Bool
  pub data_ : Bool
  pub info : Bool

abbrev pub no_wait_set : WaitSetObjects
no_wait_set = record { handle = false; data_ = false; info = false }

-- Which allocations succeed, and whether the constructor of CustomWaitsetInfo returns.
pub record CreateOutcomes : Type 0 where
  pub wait_set_allocate : Bool
  pub allocate : Bool
  pub construct : Bool

-- RMW_TRY_PLACEMENT_NEW: whether the constructor returns.
unfoldable pub placement_new : Bool → WaitSetObjects → Option (Bool × WaitSetObjects)
placement_new construct objects =
    if objects.data_ then some (construct, record objects { info = construct }) else none

-- The destructor of the CustomWaitsetInfo, which is gone also if the destructor throws.
unfoldable pub destruct_info : WaitSetObjects → Option WaitSetObjects
destruct_info objects = if objects.info then some (record objects { info = false }) else none

-- The block at `fail`, with the null pointer that is returned.
unfoldable pub fail_wait_set : WaitSetObjects → Option (Bool × WaitSetObjects)
unfolding destruct_info
fail_wait_set objects =
    if objects.handle
    then (if objects.data_
        then (destruct_info objects >>= λ freed.
            some (false, record freed { data_ = false; handle = false }))
        else some (false, record objects { handle = false }))
    else some (false, objects)

-- rmw_create_wait_set: whether a wait set is returned, and what is allocated.
unfoldable pub rmw_create_wait_set : CreateOutcomes → Option (Bool × WaitSetObjects)
unfolding placement_new fail_wait_set
rmw_create_wait_set outcomes =
    if outcomes.wait_set_allocate
    then (placement_new outcomes.construct
          (record no_wait_set { handle = true; data_ = outcomes.allocate })
        >>= λ r. if r.0 then some (true, r.1) else fail_wait_set r.1)
    else fail_wait_set no_wait_set

-- rmw_destroy_wait_set: `ours` is whether the wait set has the identifier of this implementation, and
-- `none` for a null pointer; `returns`, whether the destructor of CustomWaitsetInfo does not throw.
unfoldable pub rmw_destroy_wait_set :
    Bool → Option Bool → WaitSetObjects → Option (RmwRet × WaitSetObjects)
unfolding destruct_info
rmw_destroy_wait_set returns none objects = some (error, objects)
rmw_destroy_wait_set returns (some ours) objects =
    if not ours
    then some (error, objects)
    else if not objects.data_
    then some (error, objects)
    else (destruct_info objects >>= λ freed.
        some (if returns then ok else error, record freed { data_ = false; handle = false }))

-- The pointer that is returned.
abbrev pub returned_pointer : Bool → Option Bool
returned_pointer b = if b then some true else none

-- What rmw_create_wait_set returns, passed to rmw_destroy_wait_set, leaves nothing allocated: the code
-- is RMW_RET_OK if a wait set was created and its destructor does not throw, and RMW_RET_ERROR if not.
-- The exception is a handle that was allocated while its data was not, or the constructor threw: then
-- an object is constructed at a null pointer, or one is destroyed that was not constructed.
pub rmw_destroy_wait_set-rmw_create_wait_set :
    (outcomes : CreateOutcomes) (returns : Bool)
    → (rmw_create_wait_set outcomes >>= λ r.
        rmw_destroy_wait_set returns (returned_pointer r.0) r.1)
      ≡ (if outcomes.wait_set_allocate && not (outcomes.allocate && outcomes.construct)
          then none
          else some (if outcomes.wait_set_allocate && returns then ok else error, no_wait_set))
unfolding rmw_create_wait_set rmw_destroy_wait_set placement_new destruct_info fail_wait_set
rmw_destroy_wait_set-rmw_create_wait_set outcomes returns = ground arith
