-- ===== src/Gids/Equal.antt =====
-- The identifiers of two publishers, compared.
use rmw_dps.Prelude.{ℕ, ◌≡◌, refl, true, ◌++◌, ◌-◌, Option, some, length, take, take-append}
use rmw_dps.Text.{Text, text_eq}
use rmw_dps.Rmw.{ok, Handle}
use rmw_dps.Gids.{Gid, zeros, rmw_get_gid_for_publisher, rmw_compare_gids_equal}

take-padded : (uuid rest : Text) (size : ℕ) → length uuid ≡ size → take size (uuid ++ rest) ≡ uuid
take-padded uuid rest size e = rw (← e) (take-append uuid rest)

-- A publisher of this implementation whose publication has the UUID.
abbrev pub publisher_of : Text → Option (Handle (Option (Option Text)))
publisher_of uuid = some (record { ours = true; data_ = some (some (some uuid)) })

-- The identifiers that rmw_get_gid_for_publisher gives two publishers of this implementation are equal
-- for rmw_compare_gids_equal exactly if the UUIDs of their publications are.
pub rmw_compare_gids_equal-rmw_get_gid_for_publisher :
    (storage size : ℕ) (uuid1 uuid2 : Text) (gid1 gid2 : Gid)
    → length uuid1 ≡ size
    → length uuid2 ≡ size
    → rmw_compare_gids_equal size
        (rmw_get_gid_for_publisher storage (publisher_of uuid1) (some gid1)).1
        (rmw_get_gid_for_publisher storage (publisher_of uuid2) (some gid2)).1
        true
      ≡ (ok, some (text_eq uuid1 uuid2))
unfolding rmw_compare_gids_equal rmw_get_gid_for_publisher
rmw_compare_gids_equal-rmw_get_gid_for_publisher storage size uuid1 uuid2 gid1 gid2 e f =
    rw
      (
        take-padded uuid1 (zeros (storage - length uuid1)) size e,
        take-padded uuid2 (zeros (storage - length uuid2)) size f,
      )
      refl
