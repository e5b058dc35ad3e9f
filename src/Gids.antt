-- ===== src/Gids.antt =====
-- Global identifiers: rmw_dps_cpp/src/rmw_get_gid_for_publisher.cpp and
-- rmw_dps_cpp/src/rmw_compare_gids_equal.cpp. `storage` is RMW_GID_STORAGE_SIZE, `size` the size of a
-- DPS_UUID, whose bytes are a list.
pub mod Equal
mod Tests
use rmw_dps.Prelude.{
  not, ◌&&◌, if◌then◌else◌, ℕ, zero, suc, ◌+◌, ◌-◌, ◌≤◌, ◌≡◌, refl, ap, sym, ◌∙◌, Bool, true, false,
  List, [], ◌∷◌, ◌++◌, Option, none, some, length, take,
}
use rmw_dps.Text.{Text, text_eq}
use rmw_dps.Rmw.{RmwRet, ok, error, Handle}

-- rmw_gid_t
pub record Gid : Type 0 where
  pub ours : Bool
  pub bytes : Text

-- memset(…, 0, n)
unfoldable pub zeros : ℕ → Text
zeros zero = []
zeros (suc n) = 0 ∷ zeros n

-- rmw_get_gid_for_publisher; `gid` is what it points to, if it is not null. The data of a publisher is
-- its publication, if there is one, and that has a UUID or none.
unfoldable pub rmw_get_gid_for_publisher :
    ℕ → Option (Handle (Option (Option Text))) → Option Gid → RmwRet × Option Gid
rmw_get_gid_for_publisher storage none gid = (error, gid)
rmw_get_gid_for_publisher storage (some publisher) none = (error, none)
rmw_get_gid_for_publisher storage (some publisher) (some gid) =
    if not publisher.ours then (error, some gid) else elim publisher.data_ [
      | none ↦ (error, some gid)
      | some none ↦ (error, some gid)
      | some (some none) ↦ (error, some (record { ours = true; bytes = zeros storage }))
      | some (some (some uuid)) ↦
          (ok, some (record { ours = true; bytes = uuid ++ zeros (storage - length uuid) }))
    ]

-- rmw_compare_gids_equal; the result is written if `result` is not null.
unfoldable pub rmw_compare_gids_equal : ℕ → Option Gid → Option Gid → Bool → RmwRet × Option Bool
rmw_compare_gids_equal size none gid2 result = (error, none)
rmw_compare_gids_equal size (some gid1) none result = (error, none)
rmw_compare_gids_equal size (some gid1) (some gid2) result =
    if gid1.ours && (gid2.ours && result)
    then (ok, some (text_eq (take size gid1.bytes) (take size gid2.bytes)))
    else (error, none)
