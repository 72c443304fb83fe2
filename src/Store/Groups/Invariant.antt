-- ===== src/Store/Groups/Invariant.antt =====
-- The two membership maps are mirror images, hold no ID twice and name only groups and devices that
-- the store has.
use getdata.Base.{
  String, ◌≡◌, refl, Bool, true, not, ◌&&◌, ◌||◌, List, arith, ◌==◌, eq_iff, is_some, contains, ok,
}
use getdata.Base.Dict.{Dict, lookup, insert}
use getdata.Base.Words.{ℤ}
use getdata.Store.{Store, list_at, new, list_at-insert}
use getdata.Store.Groups.{
  add_unique_string, remove_string, add_device_to_group, remove_device_from_group,
}
use getdata.Store.Groups.Members.{
  Distinct, contains-add_unique, add_unique-Distinct, contains-remove, remove-Distinct,
}

-- The group is in the device's list.
abbrev pub member : Store → String → String → Bool
member s group_id device_id = contains group_id (list_at device_id s.group_ids_by_device)

pub record IsMirrored (s : Store) : Type 0 where
  pub mirrored : (g d : String) → contains d (list_at g s.device_ids_by_group) ≡ member s g d
  pub groups_distinct : (d : String) → Distinct (list_at d s.group_ids_by_device)
  pub devices_distinct : (g : String) → Distinct (list_at g s.device_ids_by_group)
  pub known_group : (g d : String) → member s g d ≡ true → is_some (lookup g s.groups) ≡ true
  pub known_device : (g d : String) → member s g d ≡ true → is_some (lookup d s.devices) ≡ true

-- The device is in the group's list.
abbrev member_by_group : Store → String → String → Bool
member_by_group s group_id device_id = contains device_id (list_at group_id s.device_ids_by_group)

-- What a successful change leaves: the lists of one device and of one group are new.
record IsChanged (change : List String → String → List String) (group_id device_id : String)
    (s t : Store) : Type 0 where
  by_device :
      t.group_ids_by_device
      ≡ insert device_id
          (change (list_at device_id s.group_ids_by_device) group_id)
          s.group_ids_by_device
  by_group :
      t.device_ids_by_group
      ≡ insert group_id
          (change (list_at group_id s.device_ids_by_group) device_id)
          s.device_ids_by_group
  same_groups : t.groups ≡ s.groups
  same_devices : t.devices ≡ s.devices
  has_group : is_some (lookup group_id s.groups) ≡ true
  has_device : is_some (lookup device_id s.devices) ≡ true

module _ (group_id device_id : String) (s t : Store) where
  add-IsChanged :
      add_device_to_group group_id device_id s ≡ ok t
      → IsChanged add_unique_string group_id device_id s t
  unfolding add_device_to_group
  add-IsChanged h = ground arith

  remove-IsChanged :
      remove_device_from_group group_id device_id s ≡ ok t
      → IsChanged remove_string group_id device_id s t
  unfolding remove_device_from_group
  remove-IsChanged h = ground arith

  member-add :
      IsChanged add_unique_string group_id device_id s t
      → (g d : String) → member t g d ≡ (group_id == g && device_id == d || member s g d)
  member-add c g d = rw c.by_device (
      ground (
        arith,
        list_at-insert d device_id
            (add_unique_string (list_at device_id s.group_ids_by_device) group_id)
            s.group_ids_by_device,
        contains-add_unique g group_id (list_at device_id s.group_ids_by_device),
        eq_iff device_id d,
      ))

  member_by_group-add :
      IsChanged add_unique_string group_id device_id s t
      → (g d : String)
      → member_by_group t g d ≡ (group_id == g && device_id == d || member_by_group s g d)
  member_by_group-add c g d = rw c.by_group (
      ground (
        arith,
        list_at-insert g group_id
            (add_unique_string (list_at group_id s.device_ids_by_group) device_id)
            s.device_ids_by_group,
        contains-add_unique d device_id (list_at group_id s.device_ids_by_group),
        eq_iff group_id g,
      ))

  member-remove :
      IsChanged remove_string group_id device_id s t
      → (g d : String) → member t g d ≡ (not (group_id == g && device_id == d) && member s g d)
  member-remove c g d = rw c.by_device (
      ground (
        arith,
        list_at-insert d device_id
            (remove_string (list_at device_id s.group_ids_by_device) group_id)
            s.group_ids_by_device,
        contains-remove g group_id (list_at device_id s.group_ids_by_device),
        eq_iff device_id d,
      ))

  member_by_group-remove :
      IsChanged remove_string group_id device_id s t
      → (g d : String)
      → member_by_group t g d ≡ (not (group_id == g && device_id == d) && member_by_group s g d)
  member_by_group-remove c g d = rw c.by_group (
      ground (
        arith,
        list_at-insert g group_id (remove_string (list_at group_id s.device_ids_by_group) device_id)
            s.device_ids_by_group,
        contains-remove d device_id (list_at group_id s.device_ids_by_group),
        eq_iff group_id g,
      ))

-- A list of the two maps after a change is the old list, or the changed one.
changed-Distinct :
    (change : List String → String → List String)
    → ((v : String) (xs : List String) → Distinct xs → Distinct (change xs v))
    → (k v : String) (m : Dict (List String)) → ((j : String) → Distinct (list_at j m))
    → (j : String) → Distinct (list_at j (insert k (change (list_at k m) v) m))
changed-Distinct change keep k v m all j =
    rw list_at-insert (ground (arith, keep v (list_at k m) (all k), all j))

-- Where adding a device to a group succeeds, it keeps the membership consistent: the two maps mirror
-- each other, hold no ID twice, and name only groups and devices that the store has.
pub add-IsMirrored :
    (group_id device_id : String) (s t : Store)
    → IsMirrored s
    → add_device_to_group group_id device_id s ≡ ok t
    → IsMirrored t
add-IsMirrored group_id device_id s t v h = record {
  mirrored = λ g d. ground (
    arith,
    member_by_group-add group_id device_id s t c g d,
    member-add group_id device_id s t c g d,
    v.mirrored g d,
  );
  groups_distinct = λ d. rw c.by_device (
      changed-Distinct add_unique_string add_unique-Distinct device_id group_id
        s.group_ids_by_device v.groups_distinct d);
  devices_distinct = λ g. rw c.by_group (
      changed-Distinct add_unique_string add_unique-Distinct group_id device_id
        s.device_ids_by_group v.devices_distinct g);
  known_group = λ g d m. rw c.same_groups (
      ground (
        arith,
        member-add group_id device_id s t c g d,
        v.known_group g d,
        c.has_group,
        eq_iff group_id g,
      ));
  known_device = λ g d m. rw c.same_devices (
      ground (
        arith,
        member-add group_id device_id s t c g d,
        v.known_device g d,
        c.has_device,
        eq_iff device_id d,
      ));
}
  where
    c : IsChanged add_unique_string group_id device_id s t
    c = add-IsChanged group_id device_id s t h

-- Where removing a device from a group succeeds, it keeps the membership consistent: the two maps
-- mirror each other, hold no ID twice, and name only groups and devices that the store has.
pub remove-IsMirrored :
    (group_id device_id : String) (s t : Store)
    → IsMirrored s
    → remove_device_from_group group_id device_id s ≡ ok t
    → IsMirrored t
remove-IsMirrored group_id device_id s t v h = record {
  mirrored = λ g d. ground (
    arith,
    member_by_group-remove group_id device_id s t c g d,
    member-remove group_id device_id s t c g d,
    v.mirrored g d,
  );
  groups_distinct = λ d. rw c.by_device (
      changed-Distinct remove_string remove-Distinct device_id group_id s.group_ids_by_device
        v.groups_distinct d);
  devices_distinct = λ g. rw c.by_group (
      changed-Distinct remove_string remove-Distinct group_id device_id s.device_ids_by_group
        v.devices_distinct g);
  known_group = λ g d m.
      rw c.same_groups
        (ground (arith, member-remove group_id device_id s t c g d, v.known_group g d));
  known_device = λ g d m.
      rw c.same_devices
        (ground (arith, member-remove group_id device_id s t c g d, v.known_device g d));
}
  where
    c : IsChanged remove_string group_id device_id s t
    c = remove-IsChanged group_id device_id s t h

pub new-IsMirrored : (n : ℤ) → IsMirrored (new n)
unfolding new list_at
new-IsMirrored n = record {
  mirrored = λ g d. refl;
  groups_distinct = λ d. tt;
  devices_distinct = λ g. tt;
  known_group = λ g d m. cc;
  known_device = λ g d m. cc;
}
