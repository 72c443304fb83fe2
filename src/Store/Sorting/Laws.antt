-- ===== src/Store/Sorting/Laws.antt =====
-- Sorting orders its list, and leaves an ordered one as it is.
use Prim.Native.Nat.{Ordering}
use Prim.Native.String.{compare}
use Prim.Native.String.compare
use mathlib.Core.List.{Perm}
use mathlib.Core.List.Perm
use getdata.Base.{
  String, ◌≡◌, refl, ap, inl, inr, Bool-cases, ◌∙◌, Bool, true, false, List, [], ◌∷◌, arith,
}
use getdata.Store.Sorting.{place, sort_by, sort_strings, string_le}

compare_swap : (s t : String) → compare s t ≡ Ordering.gt → compare t s ≡ Ordering.lt
compare_swap String.[] String.[] h = absurd (cc (h, compare.nil-nil))
compare_swap String.[] (String.◌∷◌ d t) h = absurd (cc (h, compare.nil-cons d t))
compare_swap (String.◌∷◌ c s) String.[] h = compare.nil-cons c s
compare_swap (String.◌∷◌ c s) (String.◌∷◌ d t) h =
    ground (arith, compare.cons-cons c d s t, compare.cons-cons d c t s, compare_swap s t)

string_le_total : (s t : String) → string_le s t ≡ false → string_le t s ≡ true
unfolding string_le
string_le_total s t h = ground (arith, compare_swap s t)

module _ {ℓ} {A : Type ℓ} (before : A → A → Bool) where
  -- Each item comes before its neighbour.
  abbrev pub IsOrdered : List A → Type 0
  IsOrdered [] = Unit
  IsOrdered (x ∷ []) = Unit
  IsOrdered (x ∷ y ∷ rest) = (before x y ≡ true) × IsOrdered (y ∷ rest)

  module _ (total : (a b : A) → before a b ≡ false → before b a ≡ true) where
    place-cons :
        (x a : A) (xs : List A)
        → before x a ≡ true
        → IsOrdered (x ∷ xs)
        → IsOrdered (x ∷ place before a xs)
    unfolding place
    place-cons x a [] h o = (h, tt)
    place-cons x a (y ∷ ys) h o = ground (arith, total a y, place-cons y a ys)

    place-IsOrdered : (a : A) (xs : List A) → IsOrdered xs → IsOrdered (place before a xs)
    unfolding place
    place-IsOrdered a [] o = tt
    place-IsOrdered a (x ∷ xs) o = ground (arith, total a x, place-cons x a xs)

    pub sort_by-IsOrdered : (xs : List A) → IsOrdered (sort_by before xs)
    unfolding sort_by
    sort_by-IsOrdered [] = tt
    sort_by-IsOrdered (x ∷ xs) = place-IsOrdered x (sort_by before xs) (sort_by-IsOrdered xs)

  place_first : (a : A) (xs : List A) → IsOrdered (a ∷ xs) → place before a xs ≡ a ∷ xs
  unfolding place
  place_first a [] o = refl
  place_first a (x ∷ xs) o = ground arith

  tail-IsOrdered : (x : A) (xs : List A) → IsOrdered (x ∷ xs) → IsOrdered xs
  tail-IsOrdered x [] o = tt
  tail-IsOrdered x (y ∷ ys) o = o.1

  pub sort_by-ordered : (xs : List A) → IsOrdered xs → sort_by before xs ≡ xs
  unfolding sort_by
  sort_by-ordered [] o = refl
  sort_by-ordered (x ∷ xs) o =
      ap (place before x) (sort_by-ordered xs (tail-IsOrdered x xs o)) ∙ place_first x xs o

  place-perm : (a : A) (xs : List A) → Perm (place before a xs) (a ∷ xs)
  unfolding place
  place-perm a [] = Perm.refl (a ∷ [])
  place-perm a (x ∷ xs) = elim (Bool-cases (before a x)) [
    | inl e ↦ rw e (Perm.refl _)
    | inr e ↦ rw e (Perm.trans (Perm.cons x (place-perm a xs)) (Perm.swap a x xs))
  ]

  pub sort_by-perm : (xs : List A) → Perm (sort_by before xs) xs
  unfolding sort_by
  sort_by-perm [] = Perm.refl []
  sort_by-perm (x ∷ xs) =
      Perm.trans (place-perm x (sort_by before xs)) (Perm.cons x (sort_by-perm xs))

pub sort_strings_idem : (xs : List String) → sort_strings (sort_strings xs) ≡ sort_strings xs
unfolding sort_strings
sort_strings_idem xs =
    sort_by-ordered string_le (sort_by string_le xs)
      (sort_by-IsOrdered string_le string_le_total xs)
