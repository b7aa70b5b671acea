-- ===== src/Tests/Parser.antt =====
-- A TimeSeries element through the parser.
use experiment_go.Prelude.{ℕ, ◌≤◌, refl, ◌≡◌, String, false, none, List, [], ◌∷◌, arith, length}
use experiment_go.Prelude.Int.{pos}
use experiment_go.Prelude.Errors.{ok}
use experiment_go.Consumption.{Reading, finite}
use experiment_go.Consumption.Xml.{Token, Fault}
use experiment_go.XmlFmt.Decode.{decode_text}
use experiment_go.XmlFmt.Decode.Shrink.{length-decode_text}
use experiment_go.XmlFmt.Loop.{Cursor, Ensures}
use experiment_go.XmlFmt.Esmp.{Common, Esmp, Flush}
use experiment_go.XmlFmt.Esmp.SeriesRounds.{parse_time_series}
use experiment_go.XmlFmt.Esmp.Batches.{Flushes, Kept, Left}
use experiment_go.XmlFmt.Esmp.SeriesBatches.{parse_time_series-Left}
use experiment_go.XmlFmt.Esmp.Gather.{gather, gather_return, to_log, to_batch}
use experiment_go.XmlFmt.Esmp.GatherSeries.{parse_time_series-gather}
use experiment_go.Tests.Ingestion.{noon}

abbrev pub common : Common
common = record {
  default_batch_rows = 5000;
  max_readings_per_document = 1000;
  normalise_instant = λ text. text;
  parse_resolution = λ text. ok (pos 900_000_000_000);
  interval_start = λ start position resolution. ok start;
  require_point_context = λ meter unit start resolution. none;
  decode_interval = λ fault tokens. decode_text fault 0 "" tokens;
  parse_rfc3339 = λ text. ok noon;
  parse_float = λ text. ok (finite false 1 (pos 0));
}

abbrev pub pairs : Esmp
pairs = record { batch_rows = 2 }

abbrev element : String → List Token → List Token
element name rest = Token.start_element (record { space = ""; local = name }) ∷ rest

abbrev closing : String → List Token → List Token
closing name rest = Token.end_element (record { space = ""; local = name }) ∷ rest

abbrev scalar : String → String → List Token → List Token
scalar name text rest = element name (Token.char_data text ∷ closing name rest)

abbrev point_at : String → List Token → List Token
point_at position rest = element "Point" (scalar "position" position (closing "Point" rest))

abbrev pub series_tokens : List Token
series_tokens = scalar "mRID" "meter" (
    element "Period" (
      scalar "resolution" "PT15M"
        (point_at "1" (point_at "2" (point_at "3" (closing "Period" (closing "TimeSeries" [])))))))

-- Writes a batch: its rows are counted, and it is emptied.
abbrev pub write_batch : Flush (List ℕ)
write_batch batch sizes = (none, ([], length batch ∷ sizes))

-- All batches written had two rows at most.
abbrev Small : List ℕ → Type 0
Small [] = Unit
Small (n ∷ sizes) = (n ≤ 2) × Small sizes

write_batch-Flushes : Flushes pairs Small write_batch
write_batch-Flushes batch sizes rows short h = (refl, (short, h))

abbrev at_series : Cursor (List ℕ)
at_series = record { tokens = series_tokens; batch = []; total = 0; world = [] }

at_series-Kept : Kept pairs Small 1000 at_series
at_series-Kept = record { rows = tt; short = omega arith; counted = omega arith; world = tt }

parse_time_series-Left_example :
    Ensures
      (Left pairs Small 1000 (length series_tokens))
      (parse_time_series common pairs Fault.eof write_batch at_series)
parse_time_series-Left_example =
    parse_time_series-Left pairs Small (omega arith) common Fault.eof write_batch
      write_batch-Flushes (λ tokens. length-decode_text Fault.eof 0 "" tokens) at_series
      at_series-Kept

abbrev triples : Esmp
triples = record { batch_rows = 3 }

abbrev at_log : Cursor (List Reading)
at_log = record { tokens = series_tokens; batch = []; total = 0; world = [] }

parse_time_series-gather_example :
    gather_return (parse_time_series common pairs Fault.eof to_log at_log)
    ≡ parse_time_series common triples Fault.eof to_batch (gather at_log)
parse_time_series-gather_example = parse_time_series-gather common Fault.eof pairs triples at_log
