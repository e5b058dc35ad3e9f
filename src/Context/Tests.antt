-- ===== src/Context/Tests.antt =====
-- Options that are copied over others: rmw_dps_cpp/src/rmw_init.cpp.
use rmw_dps.Prelude.{true, false, some, ◌≡◌, ◌⊎◌}
use rmw_dps.Rmw.{ok}
use rmw_dps.Context.{unset, ours_, InitOptions}
use rmw_dps.Context.Lives.{copy_from, options_call, Succeeds, Leaves, Refused, options_call_lem}

abbrev zero_options : InitOptions
zero_options = record {
  instance_id = 0;
  implementation_identifier = unset;
  valid_allocator = false;
  has_impl = false;
}

abbrev filled : InitOptions
filled = record {
  instance_id = 0;
  implementation_identifier = ours_;
  valid_allocator = true;
  has_impl = false;
}

options_call_lem_example :
    (Succeeds zero_options (copy_from filled) zero_options
      × ((options_call zero_options (copy_from filled) zero_options).0 ≡ ok)
      × ((after : InitOptions) × ((options_call zero_options (copy_from filled) zero_options).1
            ≡ some after)
          × Leaves zero_options (copy_from filled) after))
    ⊎ ((¬ Succeeds zero_options (copy_from filled) zero_options)
        × Refused zero_options (copy_from filled) zero_options)
options_call_lem_example = options_call_lem zero_options (copy_from filled) zero_options
