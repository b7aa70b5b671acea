-- ===== src/XmlFmt/Esmp/SeriesRounds.antt =====
-- parseTimeSeries and Parse of esmp.go.
use experiment_go.Prelude.{
  ℕ, suc, String, Bool, true, ◌||◌, Option, none, some, List, [], ◌∷◌, ◌==◌, length, if◌then◌else◌,
}
use experiment_go.Prelude.Errors.{GoError, lit, str, malformed, wrap_sentinel, wrap_both}
use experiment_go.Consumption.{Parsing, Parser}
use experiment_go.Consumption.Xml.{Name, Token, Fault, Decoder}
use experiment_go.Consumption.Registry.{Registry, register}
use experiment_go.XmlFmt.Decode.{fault_error, decode_text, decode_struct}
use experiment_go.XmlFmt.Loop.{Cursor, Step, stop, again, starved, loop}
use experiment_go.XmlFmt.Esmp.{Common, Esmp, esmp_namespace, set_mrid, Flush, Series, new_series}
use experiment_go.XmlFmt.Esmp.Rounds.{store, skip_child, parse_period}

-- The meter of a Period: the evaluation point, or the series itself.
abbrev pub meter_of : Series → String
meter_of l = if l.meter == "" then l.mrid else l.meter

abbrev pub is_scalar : String → Bool
is_scalar name =
    name == "mRID"
    || name == "businessType"
    || name == "quantity_Measure_Unit.name"
    || name == "MarketEvaluationPoint"

module _ (common : Common) (p : Esmp) (fault : Fault) {W : Type 0} (flush : Flush W) where
  abbrev pub after_period : Series → Option (Option GoError × Cursor W) → Step W Series
  after_period l none = starved
  after_period l (some (none, c)) = again l c
  after_period l (some (some e, c)) = stop (some e) c

  -- The inner switch over the scalar children.
  unfoldable pub scalar_child : String → Series → Cursor W → Step W Series
  scalar_child name l c =
      if name == "mRID"
      then store (lit "decoding TimeSeries mRID" ∷ []) (λ s. record l { mrid = s }) c
          (decode_text fault 0 "" c.tokens)
      else if name == "businessType"
      then store (lit "decoding businessType" ∷ []) (λ s. record l { business_type = s }) c
          (decode_text fault 0 "" c.tokens)
      else if name == "quantity_Measure_Unit.name"
      then store (lit "decoding unit" ∷ []) (λ s. record l { unit = s }) c
          (decode_text fault 0 "" c.tokens)
      else store (lit "decoding MarketEvaluationPoint" ∷ []) (λ s. record l { meter = s }) c
          (decode_struct fault set_mrid "" c.tokens)

  -- The switch over a child of TimeSeries.
  unfoldable pub series_child : String → Series → Cursor W → Step W Series
  unfolding scalar_child skip_child parse_period
  series_child name l c =
      if is_scalar name
      then (if l.period_seen
          then stop
              (some (wrap_sentinel malformed (str name ∷ lit " after Period in TimeSeries" ∷ []))) c
          else scalar_child name l c)
      else if name == "Period"
      then after_period (record l { period_seen = true })
          (parse_period common p fault flush (meter_of l) l.business_type l.unit c)
      else skip_child fault (lit "skipping TimeSeries child " ∷ str name ∷ []) l c

  -- One round of the loop of parseTimeSeries, by the token that is read.
  unfoldable pub series_token : Series → Cursor W → List Token → Step W Series
  unfolding series_child
  series_token l c [] =
      stop (some (wrap_both malformed (lit "decoding TimeSeries" ∷ []) (fault_error fault))) c
  series_token l c (Token.end_element n ∷ rest) =
      if n.local == "TimeSeries"
      then stop none (record c { tokens = rest })
      else again l (record c { tokens = rest })
  series_token l c (Token.start_element n ∷ rest) =
      series_child n.local l (record c { tokens = rest })
  series_token l c (_ ∷ rest) = again l (record c { tokens = rest })

  abbrev pub series_step : Series → Cursor W → Step W Series
  series_step l c = series_token l c c.tokens

  -- parseTimeSeries: `none` would be too little fuel.
  unfoldable pub parse_time_series : Cursor W → Option (Option GoError × Cursor W)
  unfolding series_token loop
  parse_time_series c = loop (suc (length c.tokens)) series_step new_series c

-- The type of the function that Parse hands to streamDocument: a method over any `flush`.
abbrev pub SeriesParser : Type 1
SeriesParser =
    (fault : Fault) (W : Type 0) → Flush W → Cursor W → Option (Option GoError × Cursor W)

-- ESMP.Parse. `stream_document` is not in the repository.
unfoldable pub parse : Common → (Decoder → Name → ℕ → SeriesParser → Parsing) → Esmp → Parser
unfolding parse_time_series
parse common stream_document p d root =
    stream_document d root p.batch_rows (λ fault W flush. parse_time_series common p fault flush)

-- ESMP.Register
unfoldable pub register_esmp :
    Common → (Decoder → Name → ℕ → SeriesParser → Parsing) → Esmp → Registry → Registry
unfolding parse
register_esmp common stream_document p registry =
    register (record { space = esmp_namespace; local = "GL_MarketDocument" })
      (parse common stream_document p) registry
