-- ===== src/Consumption/Registry.antt =====
-- internal/consumption/registry.go: the parsers by root element, and the search for the root.
pub mod Lookup
pub mod Contract
use experiment_go.Prelude.{Option, none, some, List, [], ◌∷◌, String, if◌then◌else◌}
use experiment_go.Prelude.Errors.{
  GoError, Result, ok, err, lit, str, malformed, unknown_format, plain_error, wrap_sentinel,
  wrap_both,
}
use experiment_go.Consumption.{Parser}
use experiment_go.Consumption.Xml.{Name, name_eq, Token, Fault, Decoder}

-- The map of a Registry. A key stands at most once, since `register` replaces.
abbrev pub Registry : Type 0
Registry = List (Name × Parser)

-- NewRegistry
abbrev pub new_registry : Registry
new_registry = []

-- Registry.Register
unfoldable pub register : Name → Parser → Registry → Registry
register n p [] = (n, p) ∷ []
register n p ((m, q) ∷ r) = if name_eq m n then (n, p) ∷ r else (m, q) ∷ register n p r

-- r.parsers[name]
unfoldable pub find_parser : Name → Registry → Option Parser
find_parser n [] = none
find_parser n ((m, q) ∷ r) = if name_eq m n then some q else find_parser n r

-- The error for a stream that ends before any element.
abbrev no_root : Fault → GoError
no_root Fault.eof = wrap_sentinel malformed (lit "document has no root element" ∷ [])
no_root (Fault.broken message) =
    wrap_both malformed (lit "reading root element" ∷ []) (plain_error message)

abbrev pub found_root : Name → Decoder → Option Parser → Result (Parser × Name × Decoder)
found_root n d none = err (wrap_sentinel unknown_format (str n.space ∷ lit " " ∷ str n.local ∷ []))
found_root n d (some p) = ok (p, n, d)

-- The loop of Registry.For over the tokens.
unfoldable pub for_from : Registry → List Token → Fault → Result (Parser × Name × Decoder)
for_from r [] fault = err (no_root fault)
for_from r (Token.start_element n ∷ tokens) fault =
    found_root n (record { tokens = tokens; fault = fault }) (find_parser n r)
for_from r (_ ∷ tokens) fault = for_from r tokens fault

-- Registry.For: the parser, the root element, and the decoder behind it.
unfoldable pub for_document : Registry → Decoder → Result (Parser × Name × Decoder)
unfolding for_from
for_document r d = for_from r d.tokens d.fault
