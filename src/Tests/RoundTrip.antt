-- ===== src/Tests/RoundTrip.antt =====
-- A TimeSeries element with two points, written and read back.
use experiment_go.Prelude.{refl, false, none, some, [], ◌∷◌, arith}
use experiment_go.Prelude.Int.{pos}
use experiment_go.Prelude.Text.{trim_space, parse_int}
use experiment_go.Consumption.{finite}
use experiment_go.Consumption.Xml.{Token, Fault}
use experiment_go.XmlFmt.Decode.{decode_text, decode_int, decode_float}
use experiment_go.XmlFmt.Decode.Shrink.{length-decode_text}
use experiment_go.XmlFmt.Esmp.SeriesRounds.{parse_time_series}
use experiment_go.XmlFmt.Esmp.Gather.{to_log}
use experiment_go.XmlFmt.Esmp.Document.{
  Layout, PointText, PeriodText, SeriesText, IsPoint, IsPeriod, series_fields, series_readings,
}
use experiment_go.XmlFmt.Esmp.Document.RoundTrip.{Parsed, parse_time_series-document}
use experiment_go.Tests.Ingestion.{noon}
use experiment_go.Tests.Parser.{common, pairs}

abbrev layout : Layout
layout = record { namespace = "urn"; indent = "\n  " }

abbrev first : PointText
first = record {
  position_text = " 1 ";
  quantity_text = "10.5";
  quality_text = none;
  position = pos 1;
  quantity = finite false 1 (pos 0);
  start = noon;
}

abbrev second : PointText
second = record first { position_text = "2"; quality_text = some "A03"; position = pos 2 }

abbrev period : PeriodText
period = record {
  interval =
      Token.char_data "2026-01-01T00:00Z"
      ∷ Token.end_element (record { space = "urn"; local = "timeInterval" })
      ∷ [];
  start_text = "2026-01-01T00:00Z";
  resolution_text = "PT15M";
  start = noon;
  resolution = pos 900_000_000_000;
  points = first ∷ second ∷ [];
}

abbrev series : SeriesText
series = record {
  mrid = "series";
  business_type = "A01";
  unit = "KWH";
  evaluation_point = some "meter";
  periods = period ∷ [];
}

first-IsPoint : IsPoint common Fault.eof period first
unfolding decode_int decode_float trim_space parse_int
first-IsPoint = record { position = refl; quantity = refl; start = refl }

second-IsPoint : IsPoint common Fault.eof period second
unfolding decode_int decode_float trim_space parse_int
second-IsPoint = record { position = refl; quantity = refl; start = refl }

period-IsPeriod : IsPeriod common Fault.eof "meter" "KWH" period
unfolding decode_text
period-IsPeriod = record {
  interval = λ rest. refl;
  start = refl;
  resolution = refl;
  context = refl;
  points = (first-IsPoint, (second-IsPoint, tt));
}

parse_time_series-document_example : Parsed [] (series_readings series) 2 (
    parse_time_series common pairs Fault.eof to_log
      (record { tokens = series_fields layout series []; batch = []; total = 0; world = [] }))
parse_time_series-document_example =
    parse_time_series-document layout common pairs Fault.eof
      (λ tokens. length-decode_text Fault.eof 0 "" tokens) series [] [] [] 0 (period-IsPeriod, tt)
      (omega arith)
