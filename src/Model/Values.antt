-- ===== src/Model/Values.antt =====
-- Go's dynamic values (`any`) as the program meets them: what encoding/json decodes into, and the
-- integers that the program itself puts into a map.
use getdata.Base.{
  ℕ, ◌+◌, ◌-◌, ◌*◌, ◌/◌, ◌%◌, ◌^◌, String, Bool, true, false, [], ◌∷◌, ltb, nat_eq, if◌then◌else◌,
  ◌&&◌,
}
use getdata.Base.Dict.{Dict}
use getdata.Base.Words.{ℤ, pos, negsuc, le_ℤ}

-- A float64. A finite one is a whole number of units of 2 ^ -1074, the smallest subnormal, so that
-- order, equality and the test for a whole number are exact. Arithmetic is not modelled here.
pub data Float64 : Type 0 where
  nan inf neg_inf : Float64
  finite : ℤ → Float64

abbrev pub unit_scale : ℕ
unit_scale = 2 ^ 1074

-- a == b: -0 and 0 are one value, and NaN equals nothing.
unfoldable pub eq_float : Float64 → Float64 → Bool
unfolding le_ℤ
eq_float (finite a) (finite b) = le_ℤ a b && le_ℤ b a
eq_float inf inf = true
eq_float neg_inf neg_inf = true
eq_float _ _ = false

-- a <= b
unfoldable pub le_float : Float64 → Float64 → Bool
unfolding le_ℤ
le_float (finite a) (finite b) = le_ℤ a b
le_float (finite a) inf = true
le_float neg_inf (finite b) = true
le_float neg_inf neg_inf = true
le_float neg_inf inf = true
le_float inf inf = true
le_float _ _ = false

-- a < b
unfoldable pub lt_float : Float64 → Float64 → Bool
unfolding le_ℤ
lt_float (finite a) (finite b) = if le_ℤ b a then false else true
lt_float (finite a) inf = true
lt_float neg_inf (finite b) = true
lt_float neg_inf inf = true
lt_float _ _ = false

-- math.Mod(x, 1) == 0, which is false of NaN and of the infinities.
unfoldable pub is_whole : Float64 → Bool
is_whole (finite (pos n)) = nat_eq (n % unit_scale) 0
is_whole (finite (negsuc n)) = nat_eq ((n + 1) % unit_scale) 0
is_whole _ = false

-- The excess over 53 bits of a number below 2 ^ 64.
excess_bits : ℕ → ℕ → ℕ
excess_bits ℕ.zero n = 0
excess_bits (ℕ.suc fuel) n =
    let rest = excess_bits fuel (n / 2) in if ltb n (2 ^ 53) then 0 else rest + 1

-- Rounding to 53 significant bits, to nearest, ties to even.
round53 : ℕ → ℕ
unfolding excess_bits
round53 n =
    let unit = 2 ^ excess_bits 11 n in
    let q = n / unit in
    let r = n % unit in
    (if ltb (r * 2) unit
      then q
      else if ltb unit (r * 2)
      then q + 1
      else if nat_eq r 0
      then q
      else q + q % 2)
    * unit

-- float64(n) for an integer type of at most 64 bits.
unfoldable pub float_of_int : ℤ → Float64
unfolding round53
float_of_int (pos n) = finite (pos (round53 n * unit_scale))
float_of_int (negsuc n) = finite (negsuc (round53 (n + 1) * unit_scale - 1))

mutual
  -- `int` stands for int, int32 and int64, `uint` for uint, uint32 and uint64, `float32` for the
  -- float64 that a float32 converts to.
  pub data Value : Type 0 where
    null : Value
    bool : Bool → Value
    float : Float64 → Value
    float32 : Float64 → Value
    int : ℤ → Value
    uint : ℕ → Value
    str : String → Value
    obj : Fields → Value
    arr : Elements → Value

  -- The entries of a decoded object, and the elements of a decoded array.
  pub data Fields : Type 0 where
    no_fields : Fields
    field : String → Value → Fields → Fields

  pub data Elements : Type 0 where
    no_elements : Elements
    element : Value → Elements → Elements

-- A decoded object is a map from strings.
unfoldable pub to_dict : Fields → Dict Value
to_dict no_fields = []
to_dict (field k v fs) = (k, v) ∷ to_dict fs

unfoldable pub of_dict : Dict Value → Fields
of_dict [] = no_fields
of_dict ((k, v) ∷ m) = field k v (of_dict m)
