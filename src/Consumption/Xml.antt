-- ===== src/Consumption/Xml.antt =====
-- The `encoding/xml` decoder as the program uses it: the tokens that are left of a document, and
-- the fault that ends them.
use experiment_go.Prelude.{String, Bool, ◌&&◌, List, ◌==◌}
use experiment_go.Prelude.Errors.{Message}

-- xml.Name
pub record Name : Type 0 where
  pub space : String
  pub local : String

abbrev pub name_eq : Name → Name → Bool
name_eq a b = a.space == b.space && a.local == b.local

-- xml.Token. Attributes are not used by any parser under internal/.
pub data Token : Type 0 where
  start_element end_element : Name → Token
  char_data comment proc_inst directive : String → Token

-- How the token stream ends: at the end of the input, or at a syntax error.
pub data Fault : Type 0 where
  eof : Fault
  broken : Message → Fault

pub record Decoder : Type 0 where
  pub tokens : List Token
  pub fault : Fault
