-- ===== src/XmlFmt/Esmp/GatherSeries.antt =====
-- parseTimeSeries, batched and unbatched.
use experiment_go.Prelude.{
  ◌≡◌, refl, suc, String, true, Option, none, some, List, [], ◌∷◌, ◌==◌, length, ap, ◌∙◌,
}
use experiment_go.Prelude.Errors.{GoError, lit, str}
use experiment_go.Consumption.{Reading}
use experiment_go.Consumption.Xml.{Token, Fault}
use experiment_go.XmlFmt.Decode.{decode_text, decode_struct}
use experiment_go.XmlFmt.Loop.{Cursor}
use experiment_go.XmlFmt.Esmp.{Common, Esmp, Series, new_series, set_mrid}
use experiment_go.XmlFmt.Esmp.Rounds.{parse_period}
use experiment_go.XmlFmt.Esmp.SeriesRounds.{
  meter_of, is_scalar, after_period, scalar_child, series_child, series_token, series_step,
  parse_time_series,
}
use experiment_go.XmlFmt.Esmp.Gather.{
  to_log, to_batch, gather, gather_return, gather_step, if_map, store-gather, skip_child-gather,
  loop-gather,
}
use experiment_go.XmlFmt.Esmp.GatherPeriod.{parse_period-gather}

module _ (common : Common) (fault : Fault) (p q : Esmp) where
  after_period-gather :
      (l : Series) (r : Option (Option GoError × Cursor (List Reading)))
      → gather_step (after_period common p fault to_log l r)
        ≡ after_period common q fault to_batch l (gather_return r)
  after_period-gather l none = refl
  after_period-gather l (some (none, c)) = refl
  after_period-gather l (some (some e, c)) = refl

  scalar_child-gather :
      (name : String) (l : Series) (c : Cursor (List Reading))
      → gather_step (scalar_child common p fault to_log name l c)
        ≡ scalar_child common q fault to_batch name l (gather c)
  unfolding scalar_child
  scalar_child-gather name l c =
      let text = decode_text fault 0 "" c.tokens in
      if_map gather_step (name == "mRID")
        (store-gather (lit "decoding TimeSeries mRID" ∷ []) (λ x. record l { mrid = x }) c text)
        (if_map gather_step (name == "businessType")
          (store-gather (lit "decoding businessType" ∷ []) (λ x. record l { business_type = x }) c
            text)
          (if_map gather_step (name == "quantity_Measure_Unit.name")
            (store-gather (lit "decoding unit" ∷ []) (λ x. record l { unit = x }) c text)
            (store-gather (lit "decoding MarketEvaluationPoint" ∷ []) (λ x. record l { meter = x })
              c (decode_struct fault set_mrid "" c.tokens))))

  series_child-gather :
      (name : String) (l : Series) (c : Cursor (List Reading))
      → gather_step (series_child common p fault to_log name l c)
        ≡ series_child common q fault to_batch name l (gather c)
  unfolding series_child
  series_child-gather name l c =
      let l' = record l { period_seen = true } in
      if_map gather_step (is_scalar name)
        (if_map gather_step l.period_seen refl (scalar_child-gather name l c))
        (if_map gather_step (name == "Period")
          (after_period-gather l'
              (parse_period common p fault to_log (meter_of l) l.business_type l.unit c)
            ∙ ap (after_period common q fault to_batch l')
                (parse_period-gather common fault p q (meter_of l) l.business_type l.unit c))
          (skip_child-gather fault (lit "skipping TimeSeries child " ∷ str name ∷ []) l c))

  series_token-gather :
      (l : Series) (c : Cursor (List Reading)) (tokens : List Token)
      → gather_step (series_token common p fault to_log l c tokens)
        ≡ series_token common q fault to_batch l (gather c) tokens
  unfolding series_token
  series_token-gather l c [] = refl
  series_token-gather l c (Token.end_element n ∷ rest) =
      if_map gather_step (n.local == "TimeSeries") refl refl
  series_token-gather l c (Token.start_element n ∷ rest) =
      series_child-gather n.local l (record c { tokens = rest })
  series_token-gather l c (_ ∷ rest) = refl

  -- Batching changes nothing but where the rows are cut. On every token stream, the batches that are
  -- flushed to a log, put one behind the other, with the rows that are left in the batch at the end,
  -- are the rows in their order that the parser collects if `flush` leaves the batch to grow,
  -- whatever the two batch sizes. The error, the tokens left and the count are the same too.
  pub parse_time_series-gather :
      (c : Cursor (List Reading))
      → gather_return (parse_time_series common p fault to_log c)
        ≡ parse_time_series common q fault to_batch (gather c)
  unfolding parse_time_series
  parse_time_series-gather c =
      loop-gather (series_step common p fault to_log) (series_step common q fault to_batch)
        (λ l c'. series_token-gather l c' c'.tokens) (suc (length c.tokens)) new_series c
