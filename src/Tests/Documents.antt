-- ===== src/Tests/Documents.antt =====
-- Errors of the parser, on the series of Tests/Parser.
use experiment_go.Prelude.{ℕ, refl, List, [], arith}
use experiment_go.Consumption.Xml.{Fault}
use experiment_go.XmlFmt.Decode.Permanent.{decode_text-AtError}
use experiment_go.XmlFmt.Decode.Shrink.{length-decode_text}
use experiment_go.XmlFmt.Loop.{Ensures}
use experiment_go.XmlFmt.Esmp.Batches.{Flushes}
use experiment_go.XmlFmt.Esmp.Blame.{Permanent, noting, Blamed}
use experiment_go.XmlFmt.Esmp.BlameSeries.{parse_time_series-Blamed}
use experiment_go.XmlFmt.Esmp.SeriesRounds.{parse_time_series}
use experiment_go.Tests.Parser.{common, pairs, write_batch, series_tokens}

common-Permanent : Permanent common
common-Permanent = record {
  on_resolution = λ text. tt;
  on_start = λ t position resolution. tt;
  on_context = λ meter unit have_start have_res. tt;
  on_interval = λ fault tokens. decode_text-AtError fault 0 "" tokens;
  on_time = λ text. tt;
  on_float = λ text. tt;
}

write_batch-empties : Flushes pairs {W = List ℕ} (λ w. Unit) write_batch
write_batch-empties batch sizes rows short h = (refl, tt)

parse_time_series-Blamed_example : Ensures Blamed (
    parse_time_series common pairs Fault.eof
      (noting write_batch)
      (record { tokens = series_tokens; batch = []; total = 0; world = ([], []) }))
parse_time_series-Blamed_example =
    parse_time_series-Blamed common common-Permanent pairs Fault.eof write_batch (omega arith)
      write_batch-empties (λ tokens. length-decode_text Fault.eof 0 "" tokens) series_tokens []
