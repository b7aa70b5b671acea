-- ===== src/Prelude/Text/Decimal.antt =====
-- strconv.FormatInt in base ten, and that ParseInt reads it back.
use Prim.Native.Nat.{ℕ, zero, suc, ◌+◌, ◌-◌, ◌*◌, ◌/◌, ◌%◌, ◌^◌, ◌≤◌, ◌<◌}
use Prim.Native.Char.{Char, code}
use Prim.Native.String.{String, [], ◌∷◌}
use mathlib.Core.Path.{◌≡◌, refl, ap, ◌∙◌}
use mathlib.Core.Logic.{◌≢◌, inl, inr}
use mathlib.Core.Option.{some}
use mathlib.Core.Bool.{true, false}
use native.Mathlib.Omega.{arith}
use text.Mathlib.TextLemmas.{cons-ne-nil}
use experiment_go.Prelude.Tests.{ltb, leb, eqb, Bool-cases, if_both, if◌then◌else◌}
use experiment_go.Prelude.Int.{ℤ, pos, negsuc, IsInt64}
use experiment_go.Prelude.Text.{is_digit, digits, parse_int}

-- The character of a digit, in bases up to sixteen.
abbrev pub digit_char : ℕ → Char
digit_char n =
    if eqb n 0
    then "0"
    else if eqb n 1
    then "1"
    else if eqb n 2
    then "2"
    else if eqb n 3
    then "3"
    else if eqb n 4
    then "4"
    else if eqb n 5
    then "5"
    else if eqb n 6
    then "6"
    else if eqb n 7
    then "7"
    else if eqb n 8
    then "8"
    else if eqb n 9
    then "9"
    else if eqb n 10
    then "a"
    else if eqb n 11
    then "b"
    else if eqb n 12
    then "c"
    else if eqb n 13
    then "d"
    else if eqb n 14
    then "e"
    else "f"

-- The digits of `n` before `out`; `fuel` bounds their number.
unfoldable pub digits_text : ℕ → ℕ → String → String
digits_text zero n out = out
digits_text (suc fuel) n out =
    let more = digits_text fuel (n / 10) (digit_char (n % 10) ∷ out) in
    if eqb n 0 then out else more

-- The decimal text of a natural number: a number has at most as many digits as it counts.
unfoldable pub format_nat : ℕ → String
unfolding digits_text
format_nat n = if eqb n 0 then "0" else digits_text n n ""

-- strconv.FormatInt(n, 10)
unfoldable pub format_int : ℤ → String
unfolding format_nat
format_int (pos n) = format_nat n
format_int (negsuc n) = "-" ∷ format_nat (suc n)

digit_char_code : (d : ℕ) → d < 10 → code (digit_char d) ≡ 48 + d
digit_char_code zero h = refl
digit_char_code (suc zero) h = refl
digit_char_code (suc (suc zero)) h = refl
digit_char_code (suc (suc (suc zero))) h = refl
digit_char_code (suc (suc (suc (suc zero)))) h = refl
digit_char_code (suc (suc (suc (suc (suc zero))))) h = refl
digit_char_code (suc (suc (suc (suc (suc (suc zero)))))) h = refl
digit_char_code (suc (suc (suc (suc (suc (suc (suc zero))))))) h = refl
digit_char_code (suc (suc (suc (suc (suc (suc (suc (suc zero)))))))) h = refl
digit_char_code (suc (suc (suc (suc (suc (suc (suc (suc (suc zero))))))))) h = refl
digit_char_code (suc (suc (suc (suc (suc (suc (suc (suc (suc (suc d)))))))))) h =
    absurd (omega arith)

digits_digit :
    (n d : ℕ) (out : String) → d < 10 → digits n (digit_char d ∷ out) ≡ digits (n * 10 + d) out
unfolding digits
digits_digit n d out h = rw (digit_char_code d h) (
    let within : is_digit (48 + d) ≡ true = ground arith in
    let value : n * 10 + (48 + d - 48) ≡ n * 10 + d = omega arith in rw (within, value))

digits-digits_text :
    (fuel n : ℕ) (out : String) → n ≤ fuel → digits 0 (digits_text fuel n out) ≡ digits n out
unfolding digits_text
digits-digits_text zero n out h = let none_left : n ≡ 0 = omega arith in rw none_left
digits-digits_text (suc fuel) n out h = elim (Bool-cases (eqb n 0)) [
  | inl e ↦ rw e (let none_left : n ≡ 0 = ground arith in rw none_left)
  | inr e ↦
      let whole : n / 10 * 10 + n % 10 ≡ n = omega arith in
      let fits : n / 10 ≤ fuel = ground arith in
      rw e (
        digits-digits_text fuel (n / 10) (digit_char (n % 10) ∷ out) fits
        ∙ (digits_digit (n / 10) (n % 10) out (omega arith) ∙ ap (λ m. digits m out) whole))
]

-- Digits are printed before the rest, so that a number that is not zero has a first one.
digits_text-ne-nil : (fuel n : ℕ) (out : String) → out ≢ [] → digits_text fuel n out ≢ []
unfolding digits_text
digits_text-ne-nil zero n out h = h
digits_text-ne-nil (suc fuel) n out h =
    if_both (λ s. s ≢ []) (eqb n 0) h
      (digits_text-ne-nil fuel (n / 10) (digit_char (n % 10) ∷ out) (cons-ne-nil _ _))

digits_text_pos :
    (fuel n : ℕ) (out : String) → eqb n 0 ≡ false → n ≤ fuel → digits_text fuel n out ≢ []
unfolding digits_text
digits_text_pos zero n out e h = absurd (ground arith)
digits_text_pos (suc fuel) n out e h =
    rw e (digits_text-ne-nil fuel (n / 10) (digit_char (n % 10) ∷ out) (cons-ne-nil _ _))

parse_int_of_digits :
    (s : String) (n : ℕ) → s ≢ [] → digits 0 s ≡ some n → n < 2 ^ 63 → parse_int s ≡ some (pos n)
unfolding parse_int digits
parse_int_of_digits [] n h e fits = absurd (h refl)
parse_int_of_digits (c ∷ s) n h e fits =
    let digit : is_digit (code c) ≡ true = ground arith in
    let plus : eqb (code c) b'+' ≡ false = ground arith in
    let minus : eqb (code c) b'-' ≡ false = ground arith in
    let small : ltb n (2 ^ 63) ≡ true = ground arith in rw (plus, minus, e, small)

-- The decimal text of a number has digits, and they are its digits.
digits-format_nat : (n : ℕ) → (format_nat n ≢ []) × (digits 0 (format_nat n) ≡ some n)
unfolding format_nat
digits-format_nat n = elim (Bool-cases (eqb n 0)) [
  | inl e ↦
      let zero_case : n ≡ 0 = ground arith in
      rw e (rw zero_case (cons-ne-nil _ _, unfold digits in refl))
  | inr e ↦ rw e (
    digits_text_pos n n "" e (omega arith),
    digits-digits_text n n "" (omega arith) ∙ unfold digits in refl,
  )
]

parse_int_of_minus :
    (s : String) (n : ℕ)
    → s ≢ []
    → digits 0 s ≡ some (suc n)
    → n < 2 ^ 63
    → parse_int ("-" ∷ s) ≡ some (negsuc n)
unfolding parse_int digits
parse_int_of_minus [] n h e fits = absurd (h refl)
parse_int_of_minus (c ∷ s) n h e fits =
    let some_digit : eqb (suc n) 0 ≡ false = ground arith in
    let small : leb (suc n) (2 ^ 63) ≡ true = ground arith in
    let back : suc n - 1 ≡ n = omega arith in rw (e, some_digit, small, back)

-- A number that is not negative and fits an int64 is read back from its decimal text.
pub parse_int-format_int : (n : ℕ) → n < 2 ^ 63 → parse_int (format_int (pos n)) ≡ some (pos n)
unfolding format_int
parse_int-format_int n fits =
    let (some_digit, value) = digits-format_nat n in
    parse_int_of_digits (format_nat n) n some_digit value fits

-- An int64 is read back from its decimal text.
pub parse_int-format_int64 : (z : ℤ) → IsInt64 z → parse_int (format_int z) ≡ some z
unfolding format_int
parse_int-format_int64 (pos n) fits = parse_int-format_int n (omega (arith, fits))
parse_int-format_int64 (negsuc n) fits =
    let (some_digit, value) = digits-format_nat (suc n) in
    parse_int_of_minus (format_nat (suc n)) n some_digit value (omega (arith, fits))

pub format_int-ne-nil : (z : ℤ) → format_int z ≢ []
unfolding format_int
format_int-ne-nil (pos n) = (digits-format_nat n).0
format_int-ne-nil (negsuc n) = cons-ne-nil _ _
