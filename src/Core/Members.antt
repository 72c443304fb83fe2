-- ===== src/Core/Members.antt =====
-- service.go: the devices of a group, and the tags of a device. The view of the group that is
-- returned is left out; it reads the store and changes nothing.
use getdata.Base.{String, invalid_group}
use getdata.Base.Dict.{Dict}
use getdata.Base.Text.{trim_space}
use getdata.Model.{Device, DeviceGroup}
use getdata.Store.Clone.{clone_string_map}
use getdata.Store.Catalog.{get_device, get_group, save_device}
use getdata.Store.Groups.{add_device_to_group, remove_device_from_group}
use getdata.Core.State.{Action, ◌>>=◌, ◌>>◌, pure, query, update}
use getdata.Core.Shadows.{in_scope}

unfoldable pub assign_device_to_group : String → String → Action DeviceGroup
unfolding in_scope
assign_device_to_group group_id device_id = do
  group ← query (get_group (trim_space group_id))
  device ← query (get_device (trim_space device_id))
  in_scope group.tenant_id device.tenant_id invalid_group
  in_scope group.product_id device.product_id invalid_group
  update (add_device_to_group group.id device.id)
  pure group

unfoldable pub unassign_device_from_group : String → String → Action DeviceGroup
unassign_device_from_group group_id device_id = do
  group ← query (get_group (trim_space group_id))
  _ ← query (get_device (trim_space device_id))
  update (remove_device_from_group group.id (trim_space device_id))
  pure group

unfoldable pub update_device_tags : String → Dict String → Action Device
update_device_tags device_id tags = do
  device ← query (get_device (trim_space device_id))
  update (save_device (record device { tags = clone_string_map tags }))
  pure (record device { tags = clone_string_map tags })
