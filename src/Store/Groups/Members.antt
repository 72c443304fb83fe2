-- ===== src/Store/Groups/Members.antt =====
-- Lists of IDs as sets: adding, removing and sorting, seen through membership and repetition.
use getdata.Base.{
  String, ◌≡◌, refl, ◌∙◌, false, not, ◌&&◌, ◌||◌, List, [], ◌∷◌, ◌++◌, arith, ◌==◌, eq_iff,
  contains,
}
use getdata.Store.Sorting.{place, sort_by, sort_strings, string_le}
use getdata.Store.Groups.{add_unique_string, remove_string}

-- No ID stands twice.
abbrev pub Distinct : List String → Type 0
Distinct [] = Unit
Distinct (x ∷ xs) = (contains x xs ≡ false) × Distinct xs

pub contains-append :
    (a : String) (xs ys : List String) → contains a (xs ++ ys) ≡ contains a xs || contains a ys
contains-append a [] ys = refl
contains-append a (x ∷ xs) ys = ground (arith, contains-append a xs ys)

Distinct-concat :
    (v : String) (xs : List String)
    → Distinct xs
    → contains v xs ≡ false
    → Distinct (xs ++ (v ∷ []))
Distinct-concat v [] d h = (refl, tt)
Distinct-concat v (x ∷ xs) d h =
    ground (arith, Distinct-concat v xs d.1, contains-append x xs (v ∷ []), eq_iff v x, eq_iff x v)

pub contains-add_unique :
    (a v : String) (xs : List String)
    → contains a (add_unique_string xs v) ≡ v == a || contains a xs
unfolding add_unique_string
contains-add_unique a v xs = ground (arith, contains-append a xs (v ∷ []), eq_iff v a)

pub add_unique-Distinct :
    (v : String) (xs : List String) → Distinct xs → Distinct (add_unique_string xs v)
unfolding add_unique_string
add_unique-Distinct v xs d = ground (arith, Distinct-concat v xs d)

pub contains-remove :
    (a v : String) (xs : List String)
    → contains a (remove_string xs v) ≡ not (v == a) && contains a xs
unfolding remove_string
contains-remove a v [] = ground arith
contains-remove a v (x ∷ xs) =
    ground (arith, contains-remove a v xs, eq_iff v a, eq_iff x v, eq_iff x a)

pub remove-Distinct : (v : String) (xs : List String) → Distinct xs → Distinct (remove_string xs v)
unfolding remove_string
remove-Distinct v [] d = tt
remove-Distinct v (x ∷ xs) d = ground (arith, remove-Distinct v xs d.1, contains-remove x v xs)

contains-place :
    (a x : String) (xs : List String) → contains a (place string_le x xs) ≡ x == a || contains a xs
unfolding place
contains-place a x [] = refl
contains-place a x (y ∷ ys) = ground (arith, contains-place a x ys)

-- Sorting keeps the members.
pub contains-sort : (a : String) (xs : List String) → contains a (sort_strings xs) ≡ contains a xs
unfolding sort_strings
contains-sort a [] = refl
contains-sort a (x ∷ xs) = contains-place a x (sort_by string_le xs) ∙ cc (contains-sort a xs)
