-- ===== src/Base/Text.antt =====
-- What the program uses of Go's package `strings`, over texts of Unicode code points.
use Prim.Native.Nat.{ℕ, ◌-◌}
use Prim.Native.Char.{Char, code}
use Prim.Native.String.{String, [], ◌∷◌, ◌++◌, len}
use mathlib.Core.Path.{◌≡◌, refl}
use mathlib.Core.Bool.{Bool, true, false, ◌&&◌, ◌||◌}
use mathlib.Core.Option.{Option, none, some}
use mathlib.Core.List.{List}
use text.Mathlib.Text.{◌==◌}
use getdata.Base.Tests.{leb, nat_eq, if◌then◌else◌, is_some}

abbrev pub is_empty : String → Bool
is_empty [] = true
is_empty (_ ∷ _) = false

-- unicode.IsSpace
unfoldable pub is_space : ℕ → Bool
is_space c =
    leb 9 c && leb c 13
    || nat_eq c 32
    || nat_eq c 0x85
    || nat_eq c 0xa0
    || nat_eq c 0x1680
    || leb 0x2000 c && leb c 0x200a
    || nat_eq c 0x2028
    || nat_eq c 0x2029
    || nat_eq c 0x202f
    || nat_eq c 0x205f
    || nat_eq c 0x3000

module _ (cut : ℕ → Bool) where
  -- strings.TrimLeftFunc
  unfoldable pub trim_left : String → String
  trim_left [] = []
  trim_left (c ∷ s) = if cut (code c) then trim_left s else c ∷ s

  -- strings.TrimRightFunc
  unfoldable pub trim_right : String → String
  trim_right [] = []
  trim_right (c ∷ s) =
      let rest = trim_right s in if is_empty rest && cut (code c) then [] else c ∷ rest

  -- strings.TrimFunc
  unfoldable pub trim : String → String
  unfolding trim_left trim_right
  trim s = trim_right (trim_left s)

-- strings.TrimSpace
unfoldable pub trim_space : String → String
unfolding trim is_space
trim_space = trim is_space

-- The character of `to` that stands where `c` stands in `from`, and `c` itself if it does not.
unfoldable pub translate : Char → String → String → Char
translate c [] to = c
translate c (x ∷ from) [] = c
translate c (x ∷ from) (y ∷ to) = if nat_eq (code c) (code x) then y else translate c from to

-- unicode.ToLower on ASCII, and on U+212A and U+0130, the two others with a lower case in ASCII.
-- Other letters are left as they are: every text that the program compares with is ASCII.
unfoldable pub lower : Char → Char
unfolding translate
lower c = translate c "ABCDEFGHIJKLMNOPQRSTUVWXYZKİ" "abcdefghijklmnopqrstuvwxyzki"

-- strings.ToLower
unfoldable pub to_lower : String → String
unfolding lower
to_lower [] = []
to_lower (c ∷ s) = lower c ∷ to_lower s

-- What follows `prefix` in a text that begins with it.
unfoldable pub strip_prefix : String → String → Option String
strip_prefix s [] = some s
strip_prefix [] (p ∷ prefix) = none
strip_prefix (c ∷ s) (p ∷ prefix) = if nat_eq (code c) (code p) then strip_prefix s prefix else none

-- strings.HasPrefix
unfoldable pub has_prefix : String → String → Bool
unfolding strip_prefix
has_prefix s prefix = is_some (strip_prefix s prefix)

-- strings.Cut at a character, none if it does not occur.
unfoldable pub cut_at : ℕ → String → Option (String × String)
cut_at d [] = none
cut_at d (c ∷ s) =
    let rest = cut_at d s in
    if nat_eq (code c) d
    then some ([], s)
    else elim rest [ none ↦ none | some (before, after) ↦ some (c ∷ before, after) ]

-- What stands before `suffix` in a text that ends with it.
unfoldable pub strip_suffix : String → String → Option String
strip_suffix [] suffix = if [] == suffix then some [] else none
strip_suffix (c ∷ s) suffix =
    let rest = strip_suffix s suffix in
    if c ∷ s == suffix then some [] else elim rest [ none ↦ none | some before ↦ some (c ∷ before) ]

-- strings.ContainsAny
unfoldable pub contains_any : String → (ℕ → Bool) → Bool
contains_any [] test = false
contains_any (c ∷ s) test = test (code c) || contains_any s test

-- s[n:]
unfoldable pub after : ℕ → String → String
after ℕ.zero s = s
after (ℕ.suc n) [] = []
after (ℕ.suc n) (c ∷ s) = after n s

-- The parts of a text between the characters `d`: the first and the others.
unfoldable pub split_from : ℕ → String → String × List String
split_from d [] = ([], List.[])
split_from d (c ∷ s) =
    let (first, others) = split_from d s in
    if nat_eq (code c) d then ([], List.◌∷◌ first others) else (c ∷ first, others)

-- strings.Split at a character
unfoldable pub split_on : ℕ → String → List String
unfolding split_from
split_on d s = let (first, others) = split_from d s in List.◌∷◌ first others

-- `skip` characters of an occurrence of `old` are still to be left out.
unfoldable pub replace_from : String → String → ℕ → String → String
unfolding has_prefix
replace_from old new skip [] = []
replace_from old new (ℕ.suc skip) (c ∷ s) = replace_from old new skip s
replace_from old new ℕ.zero (c ∷ s) =
    let found = replace_from old new (len old - 1) s in
    let kept = replace_from old new 0 s in if has_prefix (c ∷ s) old then new ++ found else c ∷ kept

-- strings.ReplaceAll of a text that is not empty
unfoldable pub replace_all : String → String → String → String
unfolding replace_from
replace_all s old new = replace_from old new 0 s

trim_space_runs : trim_space " \tab c\n" ≡ "ab c"
unfolding trim_space
trim_space_runs = refl

to_lower_runs : to_lower "Gt-K" ≡ "gt-k"
unfolding to_lower
to_lower_runs = refl

replace_all_runs : replace_all "a/{d}/{d}" "{d}" "x" ≡ "a/x/x"
unfolding replace_all
replace_all_runs = refl
