-- ===== src/Prelude/Text.antt =====
-- What the source uses of Go's `strings`, `strconv` and `unicode`. A Go string of valid UTF-8 is
-- the native text of its code points.
pub mod Trim
pub mod Decimal
use Prim.Native.Nat.{ℕ, ◌+◌, ◌-◌, ◌*◌, ◌^◌}
use Prim.Native.Char.{Char, code}
use Prim.Native.String.{String, [], ◌∷◌}
use mathlib.Core.Bool.{Bool, true, false, ◌&&◌, ◌||◌}
use mathlib.Core.Option.{Option, none, some}
use text.Mathlib.Text.{◌==◌}
use experiment_go.Prelude.Tests.{ltb, leb, eqb, if◌then◌else◌}
use experiment_go.Prelude.Int.{ℤ, pos, negsuc}

-- unicode.IsSpace
unfoldable pub is_space : ℕ → Bool
is_space c =
    (leb 9 c && leb c 13)
    || eqb c 32
    || eqb c 0x85
    || eqb c 0xA0
    || eqb c 0x1680
    || (leb 0x2000 c && leb c 0x200A)
    || eqb c 0x2028
    || eqb c 0x2029
    || eqb c 0x202F
    || eqb c 0x205F
    || eqb c 0x3000

module _ (cut : ℕ → Bool) where
  -- strings.TrimLeftFunc
  unfoldable pub trim_left : String → String
  trim_left [] = []
  trim_left (c ∷ s) = if cut (code c) then trim_left s else c ∷ s

  -- A character before what is left of the text behind it.
  abbrev pub join_right : Char → String → String
  join_right c [] = if cut (code c) then [] else c ∷ []
  join_right c (d ∷ r) = c ∷ d ∷ r

  -- strings.TrimRightFunc: the character stays if it or something behind it stays.
  unfoldable pub trim_right : String → String
  trim_right [] = []
  trim_right (c ∷ s) = join_right c (trim_right s)

  -- strings.TrimFunc
  unfoldable pub trim : String → String
  unfolding trim_left trim_right
  trim s = trim_right (trim_left s)

-- strings.TrimSpace
unfoldable pub trim_space : String → String
unfolding trim is_space
trim_space s = trim is_space s

abbrev pub is_digit : ℕ → Bool
is_digit c = leb b'0' c && leb c b'9'

-- The value of a run of decimal digits behind `n`; any other character is an error.
unfoldable pub digits : ℕ → String → Option ℕ
digits n [] = some n
digits n (c ∷ s) = if is_digit (code c) then digits (n * 10 + (code c - b'0')) s else none

-- `ParseUint` refuses an empty text.
unfoldable pub magnitude : String → Option ℕ
unfolding digits
magnitude [] = none
magnitude (c ∷ s) = digits 0 (c ∷ s)

abbrev positive : Option ℕ → Option ℤ
positive none = none
positive (some n) = if ltb n (2 ^ 63) then some (pos n) else none

abbrev negative : Option ℕ → Option ℤ
negative none = none
negative (some n) =
    if eqb n 0 then some (pos 0) else if leb n (2 ^ 63) then some (negsuc (n - 1)) else none

-- strconv.ParseInt(s, 10, 64), which `strconv.Atoi` is on a 64-bit machine: `none` is an error.
unfoldable pub parse_int : String → Option ℤ
unfolding magnitude
parse_int [] = none
parse_int (c ∷ s) =
    if eqb (code c) b'+'
    then positive (magnitude s)
    else if eqb (code c) b'-'
    then negative (magnitude s)
    else positive (magnitude (c ∷ s))

-- strconv.ParseBool
unfoldable pub parse_bool : String → Option Bool
parse_bool s =
    if s == "1" || s == "t" || s == "T" || s == "true" || s == "TRUE" || s == "True"
    then some true
    else if s == "0" || s == "f" || s == "F" || s == "false" || s == "FALSE" || s == "False"
    then some false
    else none

abbrev lower_ascii : ℕ → ℕ
lower_ascii c = if leb b'A' c && leb c b'Z' then c + 32 else c

-- unicode.ToLower as far as its result is ASCII: two letters outside ASCII have an ASCII lower case.
unfoldable pub lower : ℕ → ℕ
lower c = if eqb c 0x130 then b'i' else if eqb c 0x212A then b'k' else lower_ascii c

-- strings.ToLower(s) == word, for an ASCII `word`.
unfoldable pub lower_is : String → String → Bool
unfolding lower
lower_is [] [] = true
lower_is (c ∷ s) (d ∷ t) = eqb (lower (code c)) (code d) && lower_is s t
lower_is _ _ = false

-- strings.EqualFold(s, word), for a `word` of ASCII letters other than k and s, the two that also
-- fold to letters outside ASCII.
unfoldable pub equal_fold : String → String → Bool
equal_fold [] [] = true
equal_fold (c ∷ s) (d ∷ t) = eqb (lower_ascii (code c)) (lower_ascii (code d)) && equal_fold s t
equal_fold _ _ = false
