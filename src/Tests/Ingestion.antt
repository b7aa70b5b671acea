-- ===== src/Tests/Ingestion.antt =====
-- A message through the registry, the service and a sink. The parser is a small one that emits two
-- batches, the second with a reading that breaks a rule.
use experiment_go.Prelude.{
  ℕ, ◌+◌, ◌≡◌, refl, String, Option, none, some, List, [], ◌∷◌, false, length, if◌then◌else◌,
}
use experiment_go.Prelude.Int.{pos}
use experiment_go.Prelude.Errors.{GoError, lit, sentinel, transient, malformed}
use experiment_go.Consumption.{
  Time, utc, finite, Reading, Delivery, Parsing, Parser, Sink, StopsOnError,
}
use experiment_go.Consumption.Xml.{Name, Token, Fault, Decoder, name_eq}
use experiment_go.Consumption.Registry.{Registry, register, find_parser, found_root, for_document}
use experiment_go.Consumption.Registry.Lookup.{for_document-register}
use experiment_go.Consumption.Service.{ingest}
use experiment_go.Consumption.Service.Stored.{journal, IsCounted, ingest-IsCounted}
use experiment_go.Consumption.Service.Failures.{watched, FailsLast, ingest-FailsLast}
use experiment_go.Consumption.Service.Retries.{IsHonest, Blames, ingest-Blames}

abbrev pub noon : Time
noon = record { seconds = pos 63_900_000_000; nanos = 500; zone = pos 3600 }

abbrev pub row_of : String → Reading
row_of meter = record {
  metering_point_id = meter;
  start = noon;
  resolution = pos 900_000_000_000;
  value = finite false 5 (pos 0);
  unit = "kWh";
  quality = "measured";
  direction = "consumption";
  measure = "gross";
  source_message_id = "";
  ingested_at = noon;
}

abbrev pub after_first : Option GoError → Parsing
after_first (some e) = Parsing.finish (some e)
after_first none = Parsing.emit (row_of "m-2" ∷ row_of " " ∷ []) Parsing.finish

abbrev pub two_batches : Parser
two_batches d root = Parsing.emit (row_of "m-1" ∷ []) after_first

abbrev pub root_name : Name
root_name = record { space = "urn:load"; local = "Document" }

abbrev pub parsers : Registry
parsers = (root_name, two_batches) ∷ []

abbrev pub opened : List ℕ → Decoder
opened payload = record {
  tokens = Token.comment "load" ∷ Token.start_element root_name ∷ [];
  fault = Fault.eof;
}

abbrev pub counting : Sink ℕ
counting rows w = (none, w + length rows)

abbrev pub refusing : Sink ℕ
refusing rows w = (some (sentinel transient), w)

abbrev pub message : Delivery
message = record { id = "msg-7"; payload = 60 ∷ 97 ∷ []; attributes = [] }

two_batches-StopsOnError : (d : Decoder) (root : Name) → StopsOnError (two_batches d root)
two_batches-StopsOnError d root =
    StopsOnError.emit (row_of "m-1" ∷ []) after_first (λ e. refl)
      (StopsOnError.emit (row_of "m-2" ∷ row_of " " ∷ []) Parsing.finish (λ e. refl)
        (StopsOnError.finish none))

pub two_batches-IsHonest : (d : Decoder) (root : Name) → IsHonest (two_batches d root)
two_batches-IsHonest d root = (two_batches-StopsOnError d root, tt)

ingest-IsCounted_example :
    IsCounted counting "msg-7"
      (utc noon)
      (ingest opened parsers (journal counting) noon message (0, [])).1
ingest-IsCounted_example = ingest-IsCounted opened parsers counting noon message 0

ingest-FailsLast_example :
    FailsLast
      (ingest opened parsers (watched refusing) noon message (0, [])).0
      (ingest opened parsers (watched refusing) noon message (0, [])).1.1.1
ingest-FailsLast_example =
    ingest-FailsLast opened parsers refusing noon message 0 (two_batches-StopsOnError, tt)

ingest-Blames_example :
    Blames
      (ingest opened parsers (watched refusing) noon message (0, [])).0
      (ingest opened parsers (watched refusing) noon message (0, [])).1.1.1
ingest-Blames_example =
    ingest-Blames opened parsers refusing noon message 0 (two_batches-IsHonest, tt)

abbrev other_name : Name
other_name = record { space = "urn:load"; local = "Other" }

for_document-register_example :
    for_document (register other_name two_batches parsers) (record {
      tokens = Token.comment "load" ∷ Token.start_element root_name ∷ Token.char_data "x" ∷ [];
      fault = Fault.eof;
    })
    ≡ found_root root_name
        (record { tokens = Token.char_data "x" ∷ []; fault = Fault.eof })
        (if name_eq other_name root_name then some two_batches else find_parser root_name parsers)
for_document-register_example =
    for_document-register other_name root_name two_batches parsers (Token.comment "load" ∷ [])
      (Token.char_data "x" ∷ []) Fault.eof (tt, tt)

abbrev pub no_root_error : GoError
no_root_error = record {
  chain = malformed ∷ [];
  message = lit "malformed document" ∷ lit ": " ∷ lit "document has no root element" ∷ [];
}
