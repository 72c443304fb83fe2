-- ===== src/Store/Groups.antt =====
-- The group membership of memory.go: two maps of ID lists, one by device and one by group.
pub mod Members
pub mod Invariant
use getdata.Base.{
  String, Bool, true, false, not, ◌&&◌, List, [], ◌∷◌, ◌++◌, ◌==◌, if◌then◌else◌, is_some, contains,
  Result, ok, err, ◌>>=◌, ◌>>◌, Error, group_not_found, device_not_found,
}
use getdata.Base.Dict.{Dict, lookup, insert}
use getdata.Store.{Store, list_at}
use getdata.Store.Sorting.{sort_strings}

-- addUniqueString
unfoldable pub add_unique_string : List String → String → List String
add_unique_string values value = if contains value values then values else values ++ (value ∷ [])

-- removeString
unfoldable pub remove_string : List String → String → List String
remove_string [] value = []
remove_string (existing ∷ values) value =
    let rest = remove_string values value in if existing == value then rest else existing ∷ rest

-- if _, exists := m[key]; !exists { return err }
unfoldable pub require {ℓ} : {A : Type ℓ} → Dict A → String → Error → Result (Unit {0})
require m key e = if is_some (lookup key m) then ok tt else err e

unfoldable pub add_device_to_group : String → String → Store → Result Store
unfolding require add_unique_string
add_device_to_group group_id device_id s = do
  require s.groups group_id group_not_found
  require s.devices device_id device_not_found
  ok (record s {
    group_ids_by_device =
        insert device_id (add_unique_string (list_at device_id s.group_ids_by_device) group_id)
          s.group_ids_by_device;
    device_ids_by_group =
        insert group_id (add_unique_string (list_at group_id s.device_ids_by_group) device_id)
          s.device_ids_by_group;
  })

unfoldable pub remove_device_from_group : String → String → Store → Result Store
unfolding require remove_string
remove_device_from_group group_id device_id s = do
  require s.groups group_id group_not_found
  require s.devices device_id device_not_found
  ok (record s {
    group_ids_by_device =
        insert device_id (remove_string (list_at device_id s.group_ids_by_device) group_id)
          s.group_ids_by_device;
    device_ids_by_group =
        insert group_id (remove_string (list_at group_id s.device_ids_by_group) device_id)
          s.device_ids_by_group;
  })

unfoldable pub list_group_ids_by_device : String → Store → Result (List String)
unfolding require sort_strings
list_group_ids_by_device device_id s = do
  require s.devices device_id device_not_found
  ok (sort_strings (list_at device_id s.group_ids_by_device))

unfoldable pub list_device_ids_by_group : String → Store → Result (List String)
unfolding require sort_strings
list_device_ids_by_group group_id s = do
  require s.groups group_id group_not_found
  ok (sort_strings (list_at group_id s.device_ids_by_group))
