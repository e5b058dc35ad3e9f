-- ===== src/Gids/Tests.antt =====
-- Two publishers' identifiers at concrete UUIDs.
use rmw_dps.Prelude.{◌≡◌, refl, true, false, [], some}
use rmw_dps.Text.{codes, text_eq}
use rmw_dps.Rmw.{ok}
use rmw_dps.Gids.{Gid, rmw_get_gid_for_publisher, rmw_compare_gids_equal}
use rmw_dps.Gids.Equal.{publisher_of, rmw_compare_gids_equal-rmw_get_gid_for_publisher}

abbrev blank : Gid
blank = record { ours = false; bytes = [] }

rmw_compare_gids_equal-rmw_get_gid_for_publisher_example :
    rmw_compare_gids_equal 4
      (rmw_get_gid_for_publisher 24 (publisher_of (codes "abcd")) (some blank)).1
      (rmw_get_gid_for_publisher 24 (publisher_of (codes "abce")) (some blank)).1
      true
    ≡ (ok, some false)
unfolding text_eq
rmw_compare_gids_equal-rmw_get_gid_for_publisher_example =
    rmw_compare_gids_equal-rmw_get_gid_for_publisher 24 4 (codes "abcd") (codes "abce") blank blank
      refl refl
