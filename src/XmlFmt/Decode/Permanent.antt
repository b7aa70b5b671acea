-- ===== src/XmlFmt/Decode/Permanent.antt =====
-- No error of the decoder asks for a retry.
use experiment_go.Prelude.{
  ℕ, zero, suc, ◌≡◌, refl, String, false, Option, none, some, List, [], ◌∷◌,
}
use Prim.Native.String.{◌++◌}
use experiment_go.Prelude.Errors.{GoError, Result, ok, err, is_error, transient, ◌>>=◌}
use experiment_go.Consumption.Xml.{Token, Fault}
use experiment_go.XmlFmt.Decode.{
  fault_error, skip, decode_text, children, set_fields, finish_struct, decode_struct,
}

-- An error that does not ask for a retry.
abbrev pub IsPermanent : GoError → Type 0
IsPermanent e = is_error e transient ≡ false

abbrev pub AtError : {A : Type 0} → Result A → Type 0
AtError (ok a) = Unit
AtError (err e) = IsPermanent e

abbrev pub IfError : Option GoError → Type 0
IfError none = Unit
IfError (some e) = IsPermanent e

-- What the decoder itself returns is permanent.
pub fault_error-IsPermanent : (fault : Fault) → IsPermanent (fault_error fault)
fault_error-IsPermanent Fault.eof = refl
fault_error-IsPermanent (Fault.broken message) = refl

AtError-bind :
    {A : Type 0} (r : Result A) (f : A → Result A)
    → AtError r
    → ((a : A) → AtError (f a))
    → AtError (r >>= f)
AtError-bind (err e) f h k = h
AtError-bind (ok a) f h k = k a

module _ (fault : Fault) where
  pub skip-IfError : (depth : ℕ) (tokens : List Token) → IfError (skip fault depth tokens).0
  unfolding skip
  skip-IfError depth [] = fault_error-IsPermanent fault
  skip-IfError depth (Token.start_element n ∷ tokens) = skip-IfError (suc depth) tokens
  skip-IfError zero (Token.end_element n ∷ tokens) = tt
  skip-IfError (suc depth) (Token.end_element n ∷ tokens) = skip-IfError depth tokens
  skip-IfError depth (_ ∷ tokens) = skip-IfError depth tokens

  pub decode_text-AtError :
      (depth : ℕ) (text : String) (tokens : List Token)
      → AtError (decode_text fault depth text tokens).0
  unfolding decode_text
  decode_text-AtError depth text [] = fault_error-IsPermanent fault
  decode_text-AtError depth text (Token.start_element n ∷ tokens) =
      decode_text-AtError (suc depth) text tokens
  decode_text-AtError zero text (Token.end_element n ∷ tokens) = tt
  decode_text-AtError (suc depth) text (Token.end_element n ∷ tokens) =
      decode_text-AtError depth text tokens
  decode_text-AtError zero text (Token.char_data s ∷ tokens) = decode_text-AtError zero _ tokens
  decode_text-AtError depth text (_ ∷ tokens) = decode_text-AtError depth text tokens

  children-IfError :
      (at : Option (String × String × ℕ)) (tokens : List Token)
      → IfError (children fault at tokens).1.0
  unfolding children
  children-IfError at [] = fault_error-IsPermanent fault
  children-IfError none (Token.start_element n ∷ tokens) =
      children-IfError (some (n.local, "", 0)) tokens
  children-IfError none (Token.end_element n ∷ tokens) = tt
  children-IfError none (_ ∷ tokens) = children-IfError none tokens
  children-IfError (some (k, text, depth)) (Token.start_element n ∷ tokens) =
      children-IfError (some (k, text, suc depth)) tokens
  children-IfError (some (k, text, zero)) (Token.end_element n ∷ tokens) =
      children-IfError none tokens
  children-IfError (some (k, text, suc depth)) (Token.end_element n ∷ tokens) =
      children-IfError (some (k, text, depth)) tokens
  children-IfError (some (k, text, zero)) (Token.char_data s ∷ tokens) =
      children-IfError (some (k, text ++ s, zero)) tokens
  children-IfError at (_ ∷ tokens) = children-IfError at tokens

  -- A struct whose fields give permanent errors.
  module _ {A : Type 0} (set : String → String → A → Result A)
      (sets : (child text : String) (a : A) → AtError (set child text a)) where
    set_fields-AtError : (kids : List (String × String)) (a : A) → AtError (set_fields set kids a)
    unfolding set_fields
    set_fields-AtError [] a = tt
    set_fields-AtError ((k, text) ∷ kids) a =
        AtError-bind (set k text a) (λ a'. set_fields set kids a') (sets k text a)
          (λ a'. set_fields-AtError kids a')

    finish_struct-AtError :
        (r : Result A) (end : Option GoError)
        → AtError r
        → IfError end
        → AtError (finish_struct r end)
    finish_struct-AtError (err e) end h k = h
    finish_struct-AtError (ok a) (some e) h k = k
    finish_struct-AtError (ok a) none h k = tt

    pub decode_struct-AtError :
        (a : A) (tokens : List Token) → AtError (decode_struct fault set a tokens).0
    decode_struct-AtError a tokens =
        finish_struct-AtError (set_fields set (children fault none tokens).0 a)
          (children fault none tokens).1.0 (set_fields-AtError (children fault none tokens).0 a)
          (children-IfError none tokens)
