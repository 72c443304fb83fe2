-- ===== src/Ingest/Times.antt =====
-- ExtractTimestamp of ingest/resolver.go against a description of the times that a payload names.
use getdata.Base.{
  ℕ, ◌*◌, ◌<◌, ◌^◌, ◌≡◌, ◌≢◌, ◌∙◌, sym, ap, refl, subst, String, Bool, true, false, not, Option,
  none, some, List, [], ◌∷◌, ◌==◌, if◌then◌else◌, leb, arith, eq_iff, Bool-cases, inl, inr,
}
use getdata.Base.Dict.{Dict, lookup}
use getdata.Base.Text.{trim_space}
use getdata.Base.Words.{ℤ, pos, negsuc, le_ℤ}
use getdata.Base.Decimal.{parse_int}
use getdata.Model.{
  Time, Value, null, bool, float, float32, int, uint, str, arr, obj, Float64, nan, inf, neg_inf,
  finite, lt_float, float_of_int, unit_scale,
}
use getdata.Ingest.{
  Platform, milli_limit, integer_time, text_time, number_time, truncated, time_of, first_time,
  extract_timestamp,
}

-- A number above 1e12.
abbrev pub IsLarge : ℤ → Type 0
IsLarge (pos n) = 10 ^ 12 < n
IsLarge (negsuc n) = ⊥

abbrev pub IsLargeFloat : Float64 → Type 0
IsLargeFloat (finite (pos n)) = 10 ^ 12 * unit_scale < n
IsLargeFloat inf = Unit
IsLargeFloat _ = ⊥

module _ (platform : Platform) where
  -- The time that a value names: large numbers are milliseconds and the others seconds, as a float64
  -- or as a decimal text; any other text may be one of RFC 3339.
  pub data Names : Value → Time → Type 0 where
    float_seconds :
        (x : Float64) → ¬ IsLargeFloat x → Names (float x) (platform.unix (truncated platform x))
    float_millis :
        (x : Float64)
        → IsLargeFloat x
        → Names (float x) (platform.unix_milli (truncated platform x))
    text_seconds :
        (s : String) (n : ℤ)
        → parse_int (trim_space s) ≡ some n
        → ¬ IsLarge n
        → Names (str s) (platform.unix n)
    text_millis :
        (s : String) (n : ℤ)
        → parse_int (trim_space s) ≡ some n
        → IsLarge n
        → Names (str s) (platform.unix_milli n)
    text_instant :
        (s : String) (at : Time)
        → trim_space s ≢ ""
        → parse_int (trim_space s) ≡ none
        → platform.parse_time (trim_space s) ≡ some at
        → Names (str s) at

  -- The first of the keys whose value names a time gives it, and the fallback is taken if none does.
  pub data Found (payload : Dict Value) (fallback : Time) : List String → Time → Type 0 where
    nowhere : Found payload fallback [] fallback
    here :
        (key : String) (keys : List String) (value : Value) (at : Time)
        → lookup key payload ≡ some value
        → Names value at
        → Found payload fallback (key ∷ keys) at
    later :
        (key : String) (keys : List String) (at : Time)
        → ((value : Value) (t : Time) → lookup key payload ≡ some value → ¬ Names value t)
        → Found payload fallback keys at
        → Found payload fallback (key ∷ keys) at

  at_most : (n a : ℕ) → (if leb n a then false else true) ≡ false → ¬ (a < n)
  at_most n a = ground arith

  above : (n a : ℕ) → (if leb n a then false else true) ≡ true → a < n
  above n a = ground arith

  large_float : (x : Float64) → lt_float (float_of_int (pos milli_limit)) x ≡ true → IsLargeFloat x
  unfolding lt_float float_of_int le_ℤ
  large_float (finite (pos n)) h = above n _ h
  large_float (finite (negsuc n)) h = ground arith
  large_float nan h = ground arith
  large_float inf h = tt
  large_float neg_inf h = ground arith

  small_float :
      (x : Float64) → lt_float (float_of_int (pos milli_limit)) x ≡ false → ¬ IsLargeFloat x
  unfolding lt_float float_of_int le_ℤ
  small_float (finite (pos n)) h = at_most n _ h
  small_float (finite (negsuc n)) h = λ p. p
  small_float nan h = λ p. p
  small_float inf h = ground arith
  small_float neg_inf h = λ p. p

  large : (n : ℤ) → not (le_ℤ n (pos milli_limit)) ≡ true → IsLarge n
  unfolding le_ℤ
  large (pos n) h = ground arith
  large (negsuc n) h = ground arith

  small : (n : ℤ) → not (le_ℤ n (pos milli_limit)) ≡ false → ¬ IsLarge n
  unfolding le_ℤ
  small (pos n) h = ground arith
  small (negsuc n) h = λ p. p

  number-Names : (x : Float64) → Names (float x) (number_time platform x)
  number-Names x = elim (Bool-cases (lt_float (float_of_int (pos milli_limit)) x)) [
    | inl e ↦ rw e (float_millis x (large_float x e))
    | inr e ↦ rw e (float_seconds x (small_float x e))
  ]

  integer-Names :
      (s : String) (n : ℤ)
      → parse_int (trim_space s) ≡ some n
      → Names (str s) (integer_time platform n)
  integer-Names s n h = elim (Bool-cases (le_ℤ n (pos milli_limit))) [
    | inl e ↦ rw e (text_seconds s n h (small n (ap not e)))
    | inr e ↦ rw e (text_millis s n h (large n (ap not e)))
  ]

  text_lem :
      (s : String) (b : Bool) (n : Option ℤ) (u : Option Time) (at : Time)
      → (trim_space s == "") ≡ b
      → parse_int (trim_space s) ≡ n
      → platform.parse_time (trim_space s) ≡ u
      → (if b then none else elim n [ some m ↦ some (integer_time platform m) | none ↦ u ])
        ≡ some at
      → Names (str s) at
  text_lem s true n u at k q r h = ground arith
  text_lem s false (some m) u at k q r h = subst (λ t. Names (str s) t) (cc h) (integer-Names s m q)
  text_lem s false none u at k q r h =
      text_instant s at (λ e. ground (arith, k, eq_iff (trim_space s) "")) q (r ∙ h)

  -- The time that the code reads from a value is one that the value names.
  time_of-Names : (v : Value) (at : Time) → time_of platform v ≡ some at → Names v at
  unfolding time_of
  time_of-Names (float x) at h = subst (λ t. Names (float x) t) (cc h) (number-Names x)
  time_of-Names (str s) at h = text_lem s (trim_space s == "") _ _ at refl refl refl h
  time_of-Names null at h = ground arith
  time_of-Names (bool _) at h = ground arith
  time_of-Names (float32 _) at h = ground arith
  time_of-Names (int _) at h = ground arith
  time_of-Names (uint _) at h = ground arith
  time_of-Names (arr _) at h = ground arith
  time_of-Names (obj _) at h = ground arith

  no_number : (n : ℤ) → parse_int "" ≢ some n
  unfolding parse_int
  no_number n h = ground arith

  some_not_none : {at : Time} → ◌≢◌ {A = Option Time} (some at) none
  some_not_none = λ h. ground arith

  parsed :
      (raw : String) (n : ℤ)
      → parse_int raw ≡ some n
      → text_time platform raw ≡ some (integer_time platform n)
  parsed raw n q = elim (Bool-cases (raw == "")) [
    | inl e ↦
        let empty : parse_int "" ≡ some n =
          subst (λ r. parse_int r ≡ some n) ((eq_iff raw "").0 e) q in
        absurd (no_number n empty)
    | inr e ↦ rw (e, q) refl
  ]

  -- A value that names a time is not passed over.
  Names-read : (v : Value) (at : Time) → Names v at → time_of platform v ≢ none
  unfolding time_of
  Names-read _ _ (float_seconds x _) h = ground arith
  Names-read _ _ (float_millis x _) h = ground arith
  Names-read _ _ (text_seconds s n q _) h = some_not_none (sym (parsed (trim_space s) n q) ∙ h)
  Names-read _ _ (text_millis s n q _) h = some_not_none (sym (parsed (trim_space s) n q) ∙ h)
  Names-read _ _ (text_instant s at k q r) h =
      let named : (trim_space s == "") ≡ false = ground (arith, k, eq_iff (trim_space s) "") in
      let read : text_time platform (trim_space s) ≡ some at = rw (named, q, r) refl in
      some_not_none (sym read ∙ h)

  module _ (payload : Dict Value) (fallback : Time) where
    read-Found :
        (key : String) (keys : List String) (rest : Time) (v : Value) (u : Option Time)
        → lookup key payload ≡ some v
        → time_of platform v ≡ u
        → Found payload fallback keys rest
        → Found payload fallback (key ∷ keys) (elim u [ none ↦ rest | some at ↦ at ])
    read-Found key keys rest v (some at) q r f = here key keys v at q (time_of-Names v at r)
    read-Found key keys rest v none q r f =
        later key keys rest
          (λ w t e n. Names-read w t n (subst (λ x. time_of platform x ≡ none) (cc (sym q ∙ e)) r))
          f

    looked-Found :
        (key : String) (keys : List String) (rest : Time) (o : Option Value)
        → lookup key payload ≡ o
        → Found payload fallback keys rest
        → Found payload fallback (key ∷ keys) (elim o [
          | none ↦ rest
          | some v ↦ elim (time_of platform v) [ none ↦ rest | some at ↦ at ]
        ])
    looked-Found key keys rest none q f = later key keys rest (λ w t e n. ground (arith, q, e)) f
    looked-Found key keys rest (some v) q f =
        read-Found key keys rest v (time_of platform v) q refl f

    first_time-Found :
        (keys : List String)
        → Found payload fallback keys (first_time platform payload keys fallback)
    unfolding first_time
    first_time-Found [] = nowhere
    first_time-Found (key ∷ keys) =
        looked-Found key keys _ (lookup key payload) refl (first_time-Found keys)

    -- The time of a payload is the one that the first of `ts`, `timestamp` and `time` names whose
    -- value names any, and the fallback if none does: a float64 or a decimal text above 1e12 names a
    -- time in milliseconds, any other in seconds, and a text that is no number may be one of RFC 3339.
    pub extract_timestamp-Found :
        Found payload fallback
          ("ts" ∷ "timestamp" ∷ "time" ∷ [])
          (extract_timestamp platform payload fallback)
    unfolding extract_timestamp
    extract_timestamp-Found = first_time-Found _
