-- ===== src/XmlFmt/Esmp/Document/RoundTrip.antt =====
-- A whole TimeSeries, read back, whatever the size of the batches.
use experiment_go.Prelude.{
  ℕ, suc, arith, ◌+◌, ◌≤◌, ◌≡◌, refl, ap, ◌∙◌, Bool, false, Option, none, some, List, ◌++◌, length,
}
use mathlib.Core.List.{append_assoc}
use experiment_go.Prelude.Errors.{GoError}
use experiment_go.Consumption.{Reading}
use experiment_go.Consumption.Xml.{Token, Fault}
use experiment_go.XmlFmt.Loop.{Cursor}
use experiment_go.XmlFmt.Esmp.{Common, Esmp, new_series}
use experiment_go.XmlFmt.Esmp.SeriesRounds.{series_token, parse_time_series}
use experiment_go.XmlFmt.Esmp.Gather.{to_log, to_batch, gather_return}
use experiment_go.XmlFmt.Esmp.GatherSeries.{parse_time_series-gather}
use experiment_go.XmlFmt.Esmp.Document.{
  Layout, SeriesText, IsSeries, series_fields, series_readings, period_tokens, evaluation_tokens,
  scalar, end_tag, indented,
}
use experiment_go.XmlFmt.Esmp.Document.Returns.{Returns, Returns-stop, Returns-loop}
use experiment_go.XmlFmt.Esmp.Document.Total.{parse_time_series-returns}
use experiment_go.XmlFmt.Esmp.Document.Rows.{at_tokens}
use experiment_go.XmlFmt.Esmp.Document.Series.{at_periods, step, indented-Returns, periods-Returns}
use experiment_go.XmlFmt.Esmp.Document.Scalars.{
  named, typed, measured, mrid_round, business_type_round, unit_round, scalar-Returns,
  evaluation-Returns,
}

-- The parser returned without an error and stands before `rest`; what it flushed, with what it left
-- in the batch, is `rows`, and it counted `total`.
abbrev pub Parsed :
    List Token → List Reading → ℕ → Option (Option GoError × Cursor (List Reading)) → Type 0
Parsed rest rows total none = ⊥
Parsed rest rows total (some (some e, c)) = ⊥
Parsed rest rows total (some (none, c)) =
    (c.tokens ≡ rest) × (c.world ++ c.batch ≡ rows) × (c.total ≡ total)

gather_return-Parsed :
    (o : Option (Option GoError × Cursor (List Reading))) (rest : List Token) (rows : List Reading)
    (total : ℕ)
    → gather_return o ≡ some (none, at_tokens rest rows total)
    → Parsed rest rows total o
gather_return-Parsed none rest rows total h = cc
gather_return-Parsed (some (some e, c)) rest rows total h = cc
gather_return-Parsed (some (none, c)) rest rows total h = (cc, cc, cc)

module _ (layout : Layout) (common : Common) (p : Esmp) (fault : Fault)
    (reads : (tokens : List Token) → length (common.decode_interval fault tokens).1 ≤ length tokens)
    (s : SeriesText) (texts : IsSeries common fault s) (rest : List Token) (batch : List Reading)
    (total : ℕ)
    (short : total + length (series_readings s) ≤ common.max_readings_per_document) where
  abbrev series_end : Option GoError × Cursor (Unit {0})
  series_end =
      (none, at_tokens rest (batch ++ series_readings s) (total + length (series_readings s)))

  abbrev closing : List Token
  closing = end_tag layout "TimeSeries" rest

  end_Returns :
      (seen : Bool)
      → Returns
          (step layout common p fault reads s)
          (at_periods layout common p fault reads s seen)
          (at_tokens closing series_end.1.batch series_end.1.total)
          series_end
  unfolding series_token
  end_Returns seen =
      Returns-stop (step layout common p fault reads s)
        (at_periods layout common p fault reads s seen)
        (at_tokens closing series_end.1.batch series_end.1.total) none series_end.1 refl

  series_fields-Returns :
      Returns
        (step layout common p fault reads s)
        new_series
        (at_tokens (series_fields layout s rest) batch total)
        series_end
  series_fields-Returns =
      let after_periods = indented layout closing in
      let after_point = period_tokens layout s.periods after_periods in
      let after_unit = evaluation_tokens layout s.evaluation_point after_point in
      let after_type = scalar layout "quantity_Measure_Unit.name" s.unit after_unit in
      let after_mrid = scalar layout "businessType" s.business_type after_type in
      scalar-Returns layout common p fault reads s "mRID" s.mrid new_series
        (named layout common p fault reads s) (mrid_round layout common p fault reads s) after_mrid
        batch total series_end
        (scalar-Returns layout common p fault reads s "businessType" s.business_type
          (named layout common p fault reads s) (typed layout common p fault reads s)
          (business_type_round layout common p fault reads s) after_type batch total series_end
          (scalar-Returns layout common p fault reads s "quantity_Measure_Unit.name" s.unit
            (typed layout common p fault reads s) (measured layout common p fault reads s)
            (unit_round layout common p fault reads s) after_unit batch total series_end
            (evaluation-Returns layout common p fault reads s s.evaluation_point after_point batch
              total series_end
              (periods-Returns layout common p fault reads s s.periods false after_periods batch
                total series_end texts short
                (λ seen.
                  indented-Returns layout common p fault reads s
                    (at_periods layout common p fault reads s seen) closing series_end.1.batch
                    series_end.1.total series_end (end_Returns seen))))))

  unbatched :
      parse_time_series common p fault to_batch
        (at_tokens (series_fields layout s rest) batch total)
      ≡ some series_end
  unfolding parse_time_series
  unbatched =
      let c = at_tokens (series_fields layout s rest) batch total in
      Returns-loop (step layout common p fault reads s) (suc (length c.tokens)) new_series c
        series_end series_fields-Returns
        (parse_time_series-returns common p fault reads c (omega (arith, short)))

module _ (layout : Layout) (common : Common) (p : Esmp) (fault : Fault) where
  -- The parser reads back what a TimeSeries says. Take any field texts that the parsers of the
  -- numbers, the instants and the resolution accept, and the points and periods that they stand for;
  -- write them as the children of a TimeSeries in schema order, with any white space between them and
  -- any tokens behind, with or without an evaluation point and with or without a quality. If
  -- decode_interval adds no tokens, and the readings fit into the document's limit, then for every
  -- batch size parseTimeSeries returns without an error, stands right behind the end tag, and has
  -- counted the readings; and the batches it flushed to a log, put one behind the other, with the
  -- rows left in the batch, are what was there before and the readings that the text means, in their
  -- order.
  pub parse_time_series-document :
      (reads : (tokens : List Token)
        → length (common.decode_interval fault tokens).1 ≤ length tokens)
      (s : SeriesText) (rest : List Token) (log batch : List Reading) (total : ℕ)
      → IsSeries common fault s
      → total + length (series_readings s) ≤ common.max_readings_per_document
      → Parsed rest (log ++ (batch ++ series_readings s)) (total + length (series_readings s)) (
          parse_time_series common p fault to_log (record {
            tokens = series_fields layout s rest;
            batch = batch;
            total = total;
            world = log;
          }))
  parse_time_series-document reads s rest log batch total texts short =
      let c : Cursor (List Reading) = record {
        tokens = series_fields layout s rest;
        batch = batch;
        total = total;
        world = log;
      } in
      gather_return-Parsed (parse_time_series common p fault to_log c) rest
        (log ++ (batch ++ series_readings s)) (total + length (series_readings s))
        (parse_time_series-gather common fault p p c
          ∙ unbatched layout common p fault reads s texts rest (log ++ batch) total short
          ∙ ap (λ rows. some (none, at_tokens rest rows (total + length (series_readings s))))
              (append_assoc log batch (series_readings s)))
