-- ===== src/Store/Sorting.antt =====
-- sort.Slice by creation time, newest first, and sort.Strings. The sort of the source is not stable
-- and starts from the map's order; here records of one time keep their order in the list.
pub mod Laws
use Prim.Native.String.{compare}
use Prim.Native.Nat.{Ordering}
use getdata.Base.{
  ℕ, ◌≤◌, String, ◌≡◌, refl, Bool, true, false, List, [], ◌∷◌, arith, leb, if◌then◌else◌, All,
}
use getdata.Model.{Time}

module _ {ℓ} {A : Type ℓ} (before : A → A → Bool) where
  -- Puts `a` in front of the first item that it does not come after.
  unfoldable pub place : A → List A → List A
  place a [] = a ∷ []
  place a (x ∷ xs) = if before a x then a ∷ x ∷ xs else x ∷ place a xs

  unfoldable pub sort_by : List A → List A
  unfolding place
  sort_by [] = []
  sort_by (x ∷ xs) = place x (sort_by xs)

-- result[i].CreatedAt.After(result[j].CreatedAt)
unfoldable pub newest_first {ℓ} : {A : Type ℓ} → (A → Time) → List A → List A
unfolding sort_by
newest_first created_at = sort_by (λ a b. leb (created_at b) (created_at a))

unfoldable pub string_le : String → String → Bool
string_le s t = elim (compare s t) [ Ordering.gt ↦ false | _ ↦ true ]

-- sort.Strings
unfoldable pub sort_strings : List String → List String
unfolding sort_by string_le
sort_strings = sort_by string_le
