-- ===== src/XmlFmt/Esmp/Rounds.antt =====
-- The methods of esmp.go: parseTimeSeries, parsePeriod and appendPoint, each loop as a step.
use experiment_go.Prelude.{
  suc, ◌+◌, String, true, ◌||◌, Option, none, some, List, [], ◌∷◌, ◌++◌, ◌==◌, ltb, leb, length,
  if◌then◌else◌,
}
use experiment_go.Prelude.Int.{ℤ, pos}
use experiment_go.Prelude.Errors.{
  GoError, Message, Result, ok, err, lit, str, quoted, num, malformed, wrap_sentinel, wrap_both,
}
use experiment_go.Consumption.{Time, Reading, measure_gross}
use experiment_go.Consumption.Xml.{Token, Fault}
use experiment_go.XmlFmt.Decode.{fault_error, Read, skip, decode_text, decode_struct}
use experiment_go.XmlFmt.Loop.{Cursor, Step, stop, again, loop}
use experiment_go.XmlFmt.Esmp.{
  Common, Esmp, quality, direction, Point, set_point, no_point, Flush, Period, new_period,
}

-- fmt.Errorf("%w: …: %w", ErrMalformed, …, err), if there is an error.
abbrev pub malformed_if : Message → Option GoError → Option GoError
malformed_if doing none = none
malformed_if doing (some e) = some (wrap_both malformed doing e)

module _ {W L : Type 0} where
  -- Return the error of a call, or go on.
  abbrev pub go_on : L → Option GoError × Cursor W → Step W L
  go_on l (none, c) = again l c
  go_on l (some e, c) = stop (some e) c

  abbrev pub skipped : Message → L → Cursor W → Option GoError × List Token → Step W L
  skipped doing l c (e, rest) = go_on l (malformed_if doing e, record c { tokens = rest })

  -- The default case of both loops: d.Skip().
  unfoldable pub skip_child : Fault → Message → L → Cursor W → Step W L
  skip_child fault doing l c = skipped doing l c (skip fault 0 c.tokens)

  -- What d.DecodeElement read goes into a local variable.
  abbrev pub store {ℓ} : {A : Type ℓ} → Message → (A → L) → Cursor W → Read A → Step W L
  store doing f c (err e, rest) =
      stop (some (wrap_both malformed doing e)) (record c { tokens = rest })
  store doing f c (ok a, rest) = again (f a) (record c { tokens = rest })

-- The reading of one point.
abbrev pub reading_of : String → String → String → ℤ → Point → Time → Reading
reading_of meter business_type unit resolution point start = record {
  metering_point_id = meter;
  start = start;
  resolution = resolution;
  value = point.quantity;
  unit = unit;
  quality = quality point.quality;
  direction = direction business_type;
  measure = measure_gross;
  source_message_id = "";
  ingested_at = new_period.start_time;
}

module _ (common : Common) (p : Esmp) (fault : Fault) {W : Type 0} (flush : Flush W) where
  abbrev pub after_flush :
      Cursor W → Option GoError × (List Reading × W) → Option GoError × Cursor W
  after_flush c (e, (batch, w)) = (e, record c { batch = batch; world = w })

  -- appendPoint behind the computation of the point's start.
  unfoldable pub append_reading : Reading → Cursor W → Option GoError × Cursor W
  append_reading r c =
      let total = c.total + 1 in
      let batch = c.batch ++ r ∷ [] in
      if ltb common.max_readings_per_document total
      then (
        some (
            wrap_sentinel malformed (
              lit "more than "
              ∷ num (pos common.max_readings_per_document)
              ∷ lit " readings in one document"
              ∷ [])),
        record c { total = total },
      )
      else if leb p.batch_rows (length batch)
      then after_flush (record c { batch = batch; total = total }) (flush batch c.world)
      else (none, record c { batch = batch; total = total })

  abbrev pub append_at : (Time → Reading) → Cursor W → Result Time → Option GoError × Cursor W
  append_at r c (err e) = (some e, c)
  append_at r c (ok start) = append_reading (r start) c

  -- appendPoint
  unfoldable pub append_point :
      String → String → String → Time → ℤ → Point → Cursor W → Option GoError × Cursor W
  unfolding append_reading
  append_point meter business_type unit start_time resolution point c =
      append_at (reading_of meter business_type unit resolution point) c
        (common.interval_start start_time point.position resolution)

  module _ (meter business_type unit : String) where
    abbrev pub set_start : Period → Cursor W → String → Result Time → Step W Period
    set_start l c text (err e) =
        stop (some (wrap_both malformed (lit "period start " ∷ quoted text ∷ []) e)) c
    set_start l c text (ok t) = again (record l { start_time = t; have_start = true }) c

    -- The case "timeInterval".
    abbrev pub read_interval : Period → Cursor W → Read String → Step W Period
    read_interval l c (err e, rest) =
        stop (some (wrap_both malformed (lit "decoding timeInterval" ∷ []) e))
          (record c { tokens = rest })
    read_interval l c (ok text, rest) =
        set_start l (record c { tokens = rest }) text
          (common.parse_rfc3339 (common.normalise_instant text))

    abbrev pub set_resolution : Period → Cursor W → Result ℤ → Step W Period
    set_resolution l c (err e) = stop (some e) c
    set_resolution l c (ok n) = again (record l { resolution = n; have_res = true }) c

    -- The case "resolution".
    abbrev pub read_resolution : Period → Cursor W → Read String → Step W Period
    read_resolution l c (err e, rest) =
        stop (some (wrap_both malformed (lit "decoding resolution" ∷ []) e))
          (record c { tokens = rest })
    read_resolution l c (ok raw, rest) =
        set_resolution l (record c { tokens = rest }) (common.parse_resolution raw)

    abbrev pub read_point : Period → Cursor W → Read Point → Step W Period
    read_point l c (err e, rest) =
        stop (some (wrap_both malformed (lit "decoding Point" ∷ []) e)) (record c { tokens = rest })
    read_point l c (ok point, rest) = go_on l (
        append_point meter business_type unit l.start_time l.resolution point
          (record c { tokens = rest }))

    -- What the first point requires.
    abbrev pub point_context : Period → Option GoError
    point_context l =
        if l.point_seen
        then none
        else common.require_point_context meter unit l.have_start l.have_res

    -- The case "Point" behind that test.
    abbrev pub on_point : Period → Cursor W → Option GoError → Step W Period
    on_point l c (some e) = stop (some e) c
    on_point l c none =
        read_point (record l { point_seen = true }) c
          (decode_struct fault (set_point common.parse_float) no_point c.tokens)

    -- The switch over a child of Period.
    unfoldable pub period_child : String → Period → Cursor W → Step W Period
    unfolding append_point skip_child
    period_child name l c =
        if name == "timeInterval" || name == "resolution"
        then (if l.point_seen
            then stop
                (some (wrap_sentinel malformed (str name ∷ lit " after Point in Period" ∷ []))) c
            else if name == "timeInterval"
            then read_interval l c (common.decode_interval fault c.tokens)
            else read_resolution l c (decode_text fault 0 "" c.tokens))
        else if name == "Point"
        then on_point l c (point_context l)
        else skip_child fault (lit "skipping Period child " ∷ str name ∷ []) l c

    -- One round of the loop of parsePeriod, by the token that is read.
    unfoldable pub period_token : Period → Cursor W → List Token → Step W Period
    unfolding period_child
    period_token l c [] =
        stop (some (wrap_both malformed (lit "decoding Period" ∷ []) (fault_error fault))) c
    period_token l c (Token.end_element n ∷ rest) =
        if n.local == "Period"
        then stop none (record c { tokens = rest })
        else again l (record c { tokens = rest })
    period_token l c (Token.start_element n ∷ rest) =
        period_child n.local l (record c { tokens = rest })
    period_token l c (_ ∷ rest) = again l (record c { tokens = rest })

    abbrev pub period_step : Period → Cursor W → Step W Period
    period_step l c = period_token l c c.tokens

    -- parsePeriod: `none` would be too little fuel.
    unfoldable pub parse_period : Cursor W → Option (Option GoError × Cursor W)
    unfolding period_token loop
    parse_period c = loop (suc (length c.tokens)) period_step new_period c
