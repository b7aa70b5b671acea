-- ===== src/Consumption/Registry/Lookup.antt =====
-- Which parser a document gets.
use experiment_go.Prelude.{
  ◌≡◌, refl, Option, none, some, List, [], ◌∷◌, ◌++◌, ◌⊎◌, true, arith, eq_iff, if◌then◌else◌, All,
  ap, ◌∙◌,
}
use experiment_go.Prelude.Errors.{GoError, err, is_error, malformed, unknown_format}
use experiment_go.Consumption.{Parser}
use experiment_go.Consumption.Xml.{Name, name_eq, Token, Fault, Decoder}
use experiment_go.Consumption.Registry.{
  Registry, register, find_parser, found_root, for_from, for_document,
}

-- A token that is no start of an element: prolog, comment, white space.
abbrev pub IsProlog : Token → Type 0
IsProlog (Token.start_element n) = ⊥
IsProlog _ = Unit

find_parser-register :
    (n m : Name) (p : Parser) (r : Registry)
    → find_parser m (register n p r) ≡ (if name_eq n m then some p else find_parser m r)
unfolding find_parser register
find_parser-register n m p [] = refl
find_parser-register n m p ((k, q) ∷ r) = ground (
  arith,
  eq_iff k.space n.space,
  eq_iff k.local n.local,
  eq_iff k.space m.space,
  eq_iff k.local m.local,
  eq_iff n.space m.space,
  eq_iff n.local m.local,
  find_parser-register n m p r,
)

for_from-prolog :
    (r : Registry) (prolog tokens : List Token) (fault : Fault)
    → All IsProlog prolog
    → for_from r (prolog ++ tokens) fault ≡ for_from r tokens fault
unfolding for_from
for_from-prolog r [] tokens fault h = refl
for_from-prolog r (Token.start_element n ∷ prolog) tokens fault h = absurd h.0
for_from-prolog r (_ ∷ prolog) tokens fault h = for_from-prolog r prolog tokens fault h.1

-- After a registration, a document with that root gets that parser whatever was registered before,
-- any other root gets what it got before, and the decoder stands behind the root with no token
-- lost. Tokens before the root are skipped.
pub for_document-register :
    (n m : Name) (p : Parser) (r : Registry) (prolog rest : List Token) (fault : Fault)
    → All IsProlog prolog
    → for_document
        (register n p r)
        (record { tokens = prolog ++ Token.start_element m ∷ rest; fault = fault })
      ≡ found_root m
          (record { tokens = rest; fault = fault })
          (if name_eq n m then some p else find_parser m r)
unfolding for_document
for_document-register n m p r prolog rest fault h =
    for_from-prolog (register n p r) prolog (Token.start_element m ∷ rest) fault h
    ∙ ap (found_root m (record { tokens = rest; fault = fault })) (find_parser-register n m p r)

found_root-err :
    (n : Name) (d : Decoder) (o : Option Parser) (e : GoError)
    → found_root n d o ≡ err e
    → (is_error e malformed ≡ true) ⊎ (is_error e unknown_format ≡ true)
found_root-err n d none e h = ground arith
found_root-err n d (some p) e h = cc

for_from-err :
    (r : Registry) (tokens : List Token) (fault : Fault) (e : GoError)
    → for_from r tokens fault ≡ err e
    → (e.chain ≡ malformed ∷ []) ⊎ (e.chain ≡ unknown_format ∷ [])
unfolding for_from
for_from-err r [] Fault.eof e h = ground arith
for_from-err r [] (Fault.broken m) e h = ground arith
for_from-err r (Token.start_element n ∷ tokens) fault e h = ground arith
for_from-err r (_ ∷ tokens) fault e h = for_from-err r tokens fault e h

-- A document without a registered root is refused for good: the error is `malformed` or
-- `unknown_format`, and never one that asks for a retry.
pub for_document-err :
    (r : Registry) (d : Decoder) (e : GoError)
    → for_document r d ≡ err e
    → (e.chain ≡ malformed ∷ []) ⊎ (e.chain ≡ unknown_format ∷ [])
unfolding for_document
for_document-err r d = for_from-err r d.tokens d.fault
