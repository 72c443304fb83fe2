-- ===== src/Base/Words.antt =====
-- Go's `int` and `int64`. A counter is its 64-bit pattern, a number below 2 ^ 64, and its updates
-- wrap; a number that is only compared or scaled is a signed integer.
use Prim.Native.Nat.{ℕ, ◌+◌, ◌-◌, ◌%◌, ◌^◌, ◌<◌}
use mathlib.Core.Path.{◌≡◌}
use mathlib.Core.Bool.{Bool, true, false}
use native.Mathlib.Omega.{arith}
use getdata.Base.Tests.{ltb, leb, if◌then◌else◌}

abbrev pub word_mod : ℕ
word_mod = 2 ^ 64

-- The range of the positive values.
abbrev pub max_int : ℕ
max_int = 2 ^ 63 - 1

-- n++ and n--
unfoldable pub inc64 : ℕ → ℕ
inc64 n = (n + 1) % word_mod

unfoldable pub dec64 : ℕ → ℕ
dec64 n = (n + word_mod - 1) % word_mod

unfoldable pub add64 : ℕ → ℕ → ℕ
add64 a b = (a + b) % word_mod

-- a >= b on two patterns, read as signed numbers: both are moved by 2 ^ 63.
unfoldable pub ge64 : ℕ → ℕ → Bool
ge64 a b = leb ((b + 2 ^ 63) % word_mod) ((a + 2 ^ 63) % word_mod)

-- `negsuc n` is -(n + 1).
pub data ℤ : Type 0 where
  pos : ℕ → ℤ
  negsuc : ℕ → ℤ

-- The signed number of a pattern.
unfoldable pub signed : ℕ → ℤ
signed n = let m = n % word_mod in if ltb max_int m then negsuc (word_mod - 1 - m) else pos m

-- a <= b
unfoldable pub le_ℤ : ℤ → ℤ → Bool
le_ℤ (pos a) (pos b) = leb a b
le_ℤ (pos a) (negsuc b) = false
le_ℤ (negsuc a) (pos b) = true
le_ℤ (negsuc a) (negsuc b) = leb b a

-- n > 0
unfoldable pub is_pos : ℤ → Bool
is_pos (pos n) = ltb 0 n
is_pos (negsuc n) = false

abbrev pub to_ℕ : ℤ → ℕ
to_ℕ (pos n) = n
to_ℕ (negsuc n) = 0

pub inc64-small : (n : ℕ) → n < max_int → inc64 n ≡ n + 1
unfolding inc64
inc64-small n h = omega arith

pub dec64-inc64 : (n : ℕ) → n < word_mod → dec64 (inc64 n) ≡ n
unfolding inc64 dec64
dec64-inc64 n h = omega arith
