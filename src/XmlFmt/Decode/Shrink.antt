-- ===== src/XmlFmt/Decode/Shrink.antt =====
-- Reading an element leaves no more tokens than there were.
use experiment_go.Prelude.{
  ℕ, zero, suc, ◌≤◌, String, Option, none, some, List, [], ◌∷◌, arith, length,
}
use experiment_go.Consumption.Xml.{Token, Fault}
use experiment_go.XmlFmt.Decode.{skip, decode_text, children}

module _ (fault : Fault) where
  pub length-skip :
      (depth : ℕ) (tokens : List Token) → length (skip fault depth tokens).1 ≤ length tokens
  unfolding skip
  length-skip depth [] = omega arith
  length-skip depth (Token.start_element n ∷ tokens) = omega (arith, length-skip (suc depth) tokens)
  length-skip zero (Token.end_element n ∷ tokens) = omega arith
  length-skip (suc depth) (Token.end_element n ∷ tokens) = omega (arith, length-skip depth tokens)
  length-skip depth (_ ∷ tokens) = omega (arith, length-skip depth tokens)

  pub length-decode_text :
      (depth : ℕ) (text : String) (tokens : List Token)
      → length (decode_text fault depth text tokens).1 ≤ length tokens
  unfolding decode_text
  length-decode_text depth text [] = omega arith
  length-decode_text depth text (Token.start_element n ∷ tokens) =
      omega (arith, length-decode_text (suc depth) text tokens)
  length-decode_text zero text (Token.end_element n ∷ tokens) = omega arith
  length-decode_text (suc depth) text (Token.end_element n ∷ tokens) =
      omega (arith, length-decode_text depth text tokens)
  length-decode_text zero text (Token.char_data s ∷ tokens) =
      omega (arith, length-decode_text zero _ tokens)
  length-decode_text depth text (_ ∷ tokens) = omega (arith, length-decode_text depth text tokens)

  pub length-children :
      (at : Option (String × String × ℕ)) (tokens : List Token)
      → length (children fault at tokens).1.1 ≤ length tokens
  unfolding children
  length-children at [] = omega arith
  length-children none (Token.end_element n ∷ tokens) = omega arith
  length-children none (Token.start_element n ∷ tokens) = omega (arith, length-children _ tokens)
  length-children none (_ ∷ tokens) = omega (arith, length-children none tokens)
  length-children (some (k, text, depth)) (Token.start_element n ∷ tokens) =
      omega (arith, length-children (some (k, text, suc depth)) tokens)
  length-children (some (k, text, zero)) (Token.end_element n ∷ tokens) =
      omega (arith, length-children none tokens)
  length-children (some (k, text, suc depth)) (Token.end_element n ∷ tokens) =
      omega (arith, length-children (some (k, text, depth)) tokens)
  length-children (some (k, text, zero)) (Token.char_data s ∷ tokens) =
      omega (arith, length-children _ tokens)
  length-children at (_ ∷ tokens) = omega (arith, length-children at tokens)
