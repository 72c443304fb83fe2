-- ===== src/Store/Records/Commands.antt =====
-- The index of commands by device, and what a status update does to the commands.
use text.Mathlib.TextPositions.{eq_refl}
use getdata.Base.{
  ℕ, zero, suc, sym, String, ◌≡◌, refl, true, ◌||◌, Option, none, some, List, [], ◌∷◌, ◌++◌, arith,
  ◌==◌, eq_iff, if◌then◌else◌, contains, inl, inr, Option-cases, ◌∙◌, All, drop, reversed, ok, err,
  command_not_found,
}
use getdata.Base.Dict.{lookup, lookup-insert}
use getdata.Base.Words.{ℤ}
use getdata.Model.{Time, Command, CommandStatus}
use getdata.Store.{Store, list_at, list_at-insert, new}
use getdata.Store.Clone.{clone_command}
use getdata.Store.Clone.Laws.{clone_command-id}
use getdata.Store.Groups.Members.{contains-append}
use getdata.Store.Records.{
  selected, save_command, get_command, update_command_status, commands_of, list_commands_by_device,
  zero_command,
}

-- The device of the command of an ID.
owner : Store → String → Option String
owner s id = elim (lookup id s.command_by_id) [ none ↦ none | some c ↦ some c.device_id ]

-- An ID stands in a device's list only if the command of that ID is for that device.
pub record IsIndexed (s : Store) : Type 0 where
  owned :
      (d id : String) → contains id (list_at d s.command_ids_by_device) ≡ true → owner s id ≡ some d

pub new-IsIndexed : (r : ℤ) → IsIndexed (new r)
unfolding new list_at
new-IsIndexed r = record { owned = λ d id h. cc }

owner-save :
    (c : Command) (s : Store) (id : String)
    → owner (save_command c s) id ≡ (if c.id == id then some c.device_id else owner s id)
unfolding owner save_command
owner-save c s id = ground (
  arith,
  lookup-insert id c.id (clone_command c) s.command_by_id,
  clone_command-id c,
  eq_iff c.id id,
)

listed-save :
    (c : Command) (s : Store) (d id : String)
    → contains id (list_at d (save_command c s).command_ids_by_device) ≡ (
        if c.device_id == d
        then contains id (list_at d s.command_ids_by_device) || c.id == id
        else contains id (list_at d s.command_ids_by_device))
unfolding save_command
listed-save c s d id = ground (
  arith,
  list_at-insert d c.device_id (list_at c.device_id s.command_ids_by_device ++ (c.id ∷ []))
      s.command_ids_by_device,
  contains-append id (list_at c.device_id s.command_ids_by_device) (c.id ∷ []),
  eq_iff c.device_id d,
)

owner_of_fresh :
    (s : Store) (id : String) → get_command id s ≡ err command_not_found → owner s id ≡ none
unfolding owner get_command
owner_of_fresh s id h = ground arith

-- Saving a command whose ID is not taken keeps the index: an ID stands in a device's list only if the
-- command of that ID is for that device.
pub save_command-IsIndexed :
    (c : Command) (s : Store)
    → get_command c.id s ≡ err command_not_found
    → IsIndexed s
    → IsIndexed (save_command c s)
save_command-IsIndexed c s fresh v = record {
  owned = λ d id h. ground (
    arith,
    listed-save c s d id,
    owner-save c s id,
    owner_of_fresh s c.id fresh,
    v.owned d id,
    eq_iff c.id id,
    eq_iff c.device_id d,
  );
}

module _ (now : Time) (id : String) (status : CommandStatus) (result : String) (s t : Store)
    (d : Command) where
  owner-update :
      update_command_status now id status result s ≡ ok (d, t)
      → (k : String) → owner t k ≡ owner s k
  unfolding owner update_command_status
  owner-update h k = elim (Option-cases (lookup id s.command_by_id)) [
    | inl e ↦ ground arith
    | inr (c, e) ↦
        let u = record c { status = status; result = result; updated_at = now } in
        ground (
          arith,
          lookup-insert k id (clone_command u) s.command_by_id,
          clone_command-id u,
          eq_iff id k,
        )
  ]

  listed-update :
      update_command_status now id status result s ≡ ok (d, t)
      → t.command_ids_by_device ≡ s.command_ids_by_device
  unfolding update_command_status
  listed-update h = elim (Option-cases (lookup id s.command_by_id)) [
    | inl e ↦ ground arith
    | inr (c, e) ↦ ground arith
  ]

  -- A status update that succeeds keeps the index: an ID stands in a device's list only if the command
  -- of that ID is for that device.
  pub update-IsIndexed :
      update_command_status now id status result s ≡ ok (d, t) → IsIndexed s → IsIndexed t
  update-IsIndexed h v = record {
    owned = λ e k m. owner-update h k ∙ v.owned e k (rw (← listed-update h) m);
  }

  -- A status update that succeeds writes the status, the result and the time of that one command, and
  -- returns the command as it is then read.
  pub get-update :
      (c : Command)
      → update_command_status now id status result s ≡ ok (d, t)
      → get_command id s ≡ ok c
      → (d ≡ record c { status = status; result = result; updated_at = now })
        × ((k : String) → get_command k t ≡ (if id == k then ok d else get_command k s))
  unfolding update_command_status get_command
  get-update c h g = elim (Option-cases (lookup id s.command_by_id)) [
    | inl e ↦ ground arith
    | inr (x, e) ↦
        let u = record x { status = status; result = result; updated_at = now } in
        (
          ground (arith, clone_command-id x, clone_command-id u),
          λ k. ground (
            arith,
            lookup-insert k id (clone_command u) s.command_by_id,
            clone_command-id u,
            clone_command-id x,
            eq_iff id k,
          ),
        )
  ]

contains-drop :
    (a : String) (n : ℕ) (xs : List String) → contains a (drop n xs) ≡ true → contains a xs ≡ true
contains-drop a zero xs h = h
contains-drop a (suc n) [] h = h
contains-drop a (suc n) (x ∷ xs) h = ground (arith, contains-drop a n xs)

contains-reversed : (a : String) (xs : List String) → contains a (reversed xs) ≡ contains a xs
contains-reversed a [] = refl
contains-reversed a (x ∷ xs) =
    ground (arith, contains-append a (reversed xs) (x ∷ []), contains-reversed a xs)

contains-selected :
    (a : String) (limit : ℤ) (xs : List String)
    → contains a (reversed (selected limit xs)) ≡ true
    → contains a xs ≡ true
unfolding selected
contains-selected a limit xs h =
    contains-drop a _ xs (sym (contains-reversed a (selected limit xs)) ∙ h)

shown_owner :
    (s : Store) (d id : String)
    → owner s id ≡ some d
    → (clone_command
        (elim (lookup id s.command_by_id) [ none ↦ zero_command | some c ↦ c ])).device_id
      ≡ d
unfolding owner
shown_owner s d id h = rw clone_command-id (ground arith)

commands_of-All :
    (s : Store) (d : String) (ids : List String)
    → ((id : String) → contains id ids ≡ true → owner s id ≡ some d)
    → All (λ (c : Command). c.device_id ≡ d) (commands_of s.command_by_id ids)
unfolding commands_of
commands_of-All s d [] h = tt
commands_of-All s d (id ∷ ids) h = (
  shown_owner s d id (h id (rw eq_refl refl)),
  commands_of-All s d ids (λ k m. h k (ground arith)),
)

-- Where the index is right, a listing of a device's commands shows commands for that device only.
pub list_commands-All :
    (d : String) (limit : ℤ) (s : Store)
    → IsIndexed s
    → All (λ (c : Command). c.device_id ≡ d) (list_commands_by_device d limit s)
unfolding list_commands_by_device
list_commands-All d limit s v =
    commands_of-All s d _
      (λ id m. v.owned d id (contains-selected id limit (list_at d s.command_ids_by_device) m))
