-- ===== src/Base/Decimal.antt =====
-- strconv.ParseInt to base 10 and 64 bits, its errors without their kind.
use Prim.Native.Nat.{ℕ, ◌+◌, ◌-◌, ◌*◌, ◌^◌, ◌<◌}
use Prim.Native.Char.{code}
use Prim.Native.String.{String, [], ◌∷◌}
use mathlib.Core.Path.{◌≡◌, refl}
use mathlib.Core.Bool.{Bool, true, false, ◌&&◌}
use mathlib.Core.Option.{Option, none, some}
use native.Mathlib.Omega.{arith}
use getdata.Base.Tests.{leb, ltb, nat_eq, if◌then◌else◌}
use getdata.Base.Words.{ℤ, pos, negsuc}

abbrev is_digit : ℕ → Bool
is_digit c = leb 48 c && leb c 57

-- The number that the digits make after `n`, none if a character is not a digit.
unfoldable pub read_digits : String → ℕ → Option ℕ
read_digits [] n = some n
read_digits (c ∷ s) n =
    let rest = read_digits s (n * 10 + (code c - 48)) in if is_digit (code c) then rest else none

-- At least one digit.
abbrev read_number : String → Option ℕ
read_number [] = none
read_number (c ∷ s) = read_digits (c ∷ s) 0

abbrev positive : Option ℕ → Option ℤ
positive none = none
positive (some n) = if ltb n (2 ^ 63) then some (pos n) else none

abbrev negative : Option ℕ → Option ℤ
negative none = none
negative (some ℕ.zero) = some (pos 0)
negative (some (ℕ.suc n)) = if ltb n (2 ^ 63) then some (negsuc n) else none

unfoldable pub parse_int : String → Option ℤ
unfolding read_digits
parse_int [] = none
parse_int (c ∷ s) =
    if nat_eq (code c) 43
    then positive (read_number s)
    else if nat_eq (code c) 45
    then negative (read_number s)
    else positive (read_number (c ∷ s))

-- A number of 64 bits with a sign.
abbrev pub InInt64 : ℤ → Type 0
InInt64 (pos n) = n < 2 ^ 63
InInt64 (negsuc n) = n < 2 ^ 63

abbrev pub AllInInt64 : Option ℤ → Type 0
AllInInt64 none = Unit
AllInInt64 (some n) = InInt64 n

positive_fits : (n : Option ℕ) → AllInInt64 (positive n)
positive_fits none = tt
positive_fits (some n) = ground arith

negative_fits : (n : Option ℕ) → AllInInt64 (negative n)
negative_fits none = tt
negative_fits (some ℕ.zero) = omega arith
negative_fits (some (ℕ.suc n)) = ground arith

if_fits :
    (b : Bool) (m n : Option ℤ) → AllInInt64 m → AllInInt64 n → AllInInt64 (if b then m else n)
if_fits true m n h k = h
if_fits false m n h k = k

-- A number that is read fits in 64 bits.
pub parse_int-AllInInt64 : (s : String) → AllInInt64 (parse_int s)
unfolding parse_int
parse_int-AllInInt64 [] = tt
parse_int-AllInInt64 (c ∷ s) =
    if_fits (nat_eq (code c) 43) _
      (if nat_eq (code c) 45 then negative (read_number s) else positive (read_number (c ∷ s)))
      (positive_fits (read_number s))
      (if_fits (nat_eq (code c) 45) _ _ (negative_fits (read_number s))
        (positive_fits (read_number (c ∷ s))))

parse_int_runs : parse_int "-120" ≡ some (negsuc 119)
unfolding parse_int
parse_int_runs = refl
