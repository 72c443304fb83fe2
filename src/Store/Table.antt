-- ===== src/Store/Table.antt =====
-- The shape that the eight tables of the store share: Create, Get and Save over a map keyed by the
-- record's ID (memory.go and tenant_ota.go write it out for each table).
use getdata.Base.{
  String, ◌≡◌, ◌⊎◌, inl, inr, none, some, arith, ◌==◌, if◌then◌else◌, is_some, Option-cases, Error,
  Result, ok, err,
}
use getdata.Base.Dict.{Dict, lookup, insert}

module _ {ℓ} {V : Type ℓ} where
  -- if _, exists := m[key]; exists { return err }; m[key] = v
  unfoldable pub create_at : Error → String → V → Dict V → Result (Dict V)
  create_at exists key v m = if is_some (lookup key m) then err exists else ok (insert key v m)

  -- if _, exists := m[key]; !exists { return err }; m[key] = v
  unfoldable pub save_at : Error → String → V → Dict V → Result (Dict V)
  save_at not_found key v m = if is_some (lookup key m) then ok (insert key v m) else err not_found

  -- v, exists := m[key]; if !exists { return err }; return clone(v)
  unfoldable pub get_at : Error → (V → V) → String → Dict V → Result V
  get_at not_found clone key m = elim (lookup key m) [
    | none ↦ err not_found
    | some v ↦ ok (clone v)
  ]

  pub get_at-cases :
      (not_found : Error) (clone : V → V) (key : String) (m : Dict V)
      → ((v : V) × (get_at not_found clone key m ≡ ok v))
        ⊎ (get_at not_found clone key m ≡ err not_found)
  unfolding get_at
  get_at-cases not_found clone key m = elim (Option-cases (lookup key m)) [
    | inl e ↦ inr (ground arith)
    | inr (v, e) ↦ inl (clone v, ground arith)
  ]

-- What a table promises of the store around it: `create` and `save` write the record that they are
-- given, by `put`, or are refused where the key is taken, and where it is not; and `get` reads back
-- what `put` wrote, at that key alone.
pub record IsTable {ℓ κ} {S : Type ℓ} {A : Type κ} (key : A → String)
    (create save : A → S → Result S) (put : A → S → S) (get : String → S → Result A)
    (not_found exists : Error) : Type (ℓ ⊔ κ) where
  pub get-put :
      (a : A) (s : S) (k : String) → get k (put a s) ≡ (if key a == k then ok a else get k s)
  pub create_fresh : (a : A) (s : S) → get (key a) s ≡ err not_found → create a s ≡ ok (put a s)
  pub create_taken : (a b : A) (s : S) → get (key a) s ≡ ok b → create a s ≡ err exists
  pub save_taken : (a b : A) (s : S) → get (key a) s ≡ ok b → save a s ≡ ok (put a s)
  pub save_missing : (a : A) (s : S) → get (key a) s ≡ err not_found → save a s ≡ err not_found
  pub get_total : (k : String) (s : S) → ((a : A) × (get k s ≡ ok a)) ⊎ (get k s ≡ err not_found)
