-- ===== src/Consumption/Registry/Contract.antt =====
-- Contracts of parsers, from the registry to the parser of a document.
use experiment_go.Prelude.{List, [], ◌∷◌, All, Bool-cases, inl, inr}
use experiment_go.Prelude.Errors.{Result, ok, err}
use experiment_go.Consumption.{Parsing, Parser}
use experiment_go.Consumption.Xml.{Name, name_eq, Token, Fault, Decoder}
use experiment_go.Consumption.Registry.{Registry, find_parser, found_root, for_from, for_document}

-- The parser that a document gets keeps the contract `P` on that document.
abbrev pub OnFound : (Parsing → Type 0) → Result (Parser × Name × Decoder) → Type 0
OnFound P (err e) = Unit
OnFound P (ok (parser, root, d)) = P (parser d root)

-- Every registered parser keeps the contract `P` on every document.
abbrev pub AllParsers : (Parsing → Type 0) → Registry → Type 0
AllParsers P = All (λ entry. (d : Decoder) (root : Name) → P (entry.1 d root))

module _ (P : Parsing → Type 0) where
  find_parser-AllParsers :
      (n : Name) (registry : Registry)
      → AllParsers P registry
      → (d : Decoder) → OnFound P (found_root n d (find_parser n registry))
  unfolding find_parser
  find_parser-AllParsers n [] h d = tt
  find_parser-AllParsers n ((m, q) ∷ registry) h d = elim (Bool-cases (name_eq m n)) [
    | inl e ↦ rw e (h.0 d n)
    | inr e ↦ rw e (find_parser-AllParsers n registry h.1 d)
  ]

  for_from-AllParsers :
      (registry : Registry) (tokens : List Token) (fault : Fault)
      → AllParsers P registry
      → OnFound P (for_from registry tokens fault)
  unfolding for_from
  for_from-AllParsers registry [] fault h = tt
  for_from-AllParsers registry (Token.start_element n ∷ tokens) fault h =
      find_parser-AllParsers n registry h (record { tokens = tokens; fault = fault })
  for_from-AllParsers registry (_ ∷ tokens) fault h = for_from-AllParsers registry tokens fault h

  pub for_document-AllParsers :
      (registry : Registry) (d : Decoder)
      → AllParsers P registry
      → OnFound P (for_document registry d)
  unfolding for_document
  for_document-AllParsers registry d = for_from-AllParsers registry d.tokens d.fault
