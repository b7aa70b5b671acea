-- ===== src/XmlFmt/Decode.antt =====
-- What the parsers call of `encoding/xml` on a decoder that stands behind a start element: Skip, and
-- DecodeElement into a string and into a struct of such fields. A nested element is skipped by its
-- depth.
pub mod Shrink
pub mod Permanent
use experiment_go.Prelude.{
  ℕ, zero, suc, false, String, Option, none, some, List, [], ◌∷◌, ◌==◌, if◌then◌else◌,
}
use Prim.Native.String.{◌++◌}
use experiment_go.Prelude.Int.{ℤ, pos}
use experiment_go.Prelude.Text.{trim_space, parse_int}
use experiment_go.Prelude.Errors.{GoError, Result, ok, err, lit, quoted, plain_error, ◌>>=◌}
use experiment_go.Consumption.{Float64, finite}
use experiment_go.Consumption.Xml.{Name, Token, Fault}

-- The error that d.Token() returns where the tokens end.
abbrev pub fault_error : Fault → GoError
fault_error Fault.eof = plain_error (lit "EOF" ∷ [])
fault_error (Fault.broken message) = plain_error message

-- A value and the tokens behind what was read.
abbrev pub Read {ℓ} : Type ℓ → Type ℓ
Read A = Result A × List Token

abbrev pub prepend :
    String × String
    → List (String × String) × (Option GoError × List Token)
    → List (String × String) × (Option GoError × List Token)
prepend kid (kids, end) = (kid ∷ kids, end)

module _ {ℓ} {A : Type ℓ} where
  -- The fields of a struct in the order of the children; the first error ends it.
  unfoldable pub set_fields :
      (String → String → A → Result A) → List (String × String) → A → Result A
  set_fields set [] a = ok a
  set_fields set ((k, text) ∷ kids) a = do a' ← set k text a; set_fields set kids a'

  abbrev pub finish_struct : Result A → Option GoError → Result A
  finish_struct (err e) end = err e
  finish_struct (ok a) (some e) = err e
  finish_struct (ok a) none = ok a

-- The message leaves out whether the syntax or the range is wrong.
abbrev pub int_or_error : String → Option ℤ → Result ℤ
int_or_error text none = err (plain_error (lit "strconv.ParseInt: parsing " ∷ quoted text ∷ []))
int_or_error text (some n) = ok n

module _ (fault : Fault) where
  -- d.Skip(), at some depth inside the element.
  unfoldable pub skip : ℕ → List Token → Option GoError × List Token
  skip depth [] = (some (fault_error fault), [])
  skip depth (Token.start_element n ∷ tokens) = skip (suc depth) tokens
  skip zero (Token.end_element n ∷ tokens) = (none, tokens)
  skip (suc depth) (Token.end_element n ∷ tokens) = skip depth tokens
  skip depth (_ ∷ tokens) = skip depth tokens

  -- d.DecodeElement into a string: the character data directly inside the element.
  unfoldable pub decode_text : ℕ → String → List Token → Read String
  decode_text depth text [] = (err (fault_error fault), [])
  decode_text depth text (Token.start_element n ∷ tokens) = decode_text (suc depth) text tokens
  decode_text zero text (Token.end_element n ∷ tokens) = (ok text, tokens)
  decode_text (suc depth) text (Token.end_element n ∷ tokens) = decode_text depth text tokens
  decode_text zero text (Token.char_data s ∷ tokens) = decode_text zero (text ++ s) tokens
  decode_text depth text (_ ∷ tokens) = decode_text depth text tokens

  -- The children of an element, each with its local name and its text, up to the element's end or
  -- to the fault. It stands between two children, or inside the child that is given, at a depth.
  unfoldable pub children :
      Option (String × String × ℕ)
      → List Token
      → List (String × String) × (Option GoError × List Token)
  children at [] = ([], (some (fault_error fault), []))
  children none (Token.start_element n ∷ tokens) = children (some (n.local, "", 0)) tokens
  children none (Token.end_element n ∷ tokens) = ([], (none, tokens))
  children none (_ ∷ tokens) = children none tokens
  children (some (k, text, depth)) (Token.start_element n ∷ tokens) =
      children (some (k, text, suc depth)) tokens
  children (some (k, text, zero)) (Token.end_element n ∷ tokens) =
      prepend (k, text) (children none tokens)
  children (some (k, text, suc depth)) (Token.end_element n ∷ tokens) =
      children (some (k, text, depth)) tokens
  children (some (k, text, zero)) (Token.char_data s ∷ tokens) =
      children (some (k, text ++ s, zero)) tokens
  children at (_ ∷ tokens) = children at tokens

  -- d.DecodeElement into a struct: each child goes into its field as it ends, so that an error of a
  -- field comes before a later fault.
  abbrev pub decode_struct {ℓ} :
      {A : Type ℓ} → (String → String → A → Result A) → A → List Token → Read A
  decode_struct set a tokens =
      let (kids, (end, rest)) = children none tokens in
      (finish_struct (set_fields set kids a) end, rest)

-- A number in a field: an empty text leaves zero.
unfoldable pub decode_int : String → Result ℤ
decode_int text = if text == "" then ok (pos 0) else int_or_error text (parse_int (trim_space text))

unfoldable pub decode_float : (String → Result Float64) → String → Result Float64
decode_float parse_float text =
    if text == "" then ok (finite false 0 (pos 0)) else parse_float (trim_space text)
