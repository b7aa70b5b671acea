-- ===== src/XmlFmt/Esmp/SeriesBatches.antt =====
-- parseTimeSeries keeps the bounds on the batch, and returns.
use experiment_go.Prelude.{
  suc, ◌≤◌, ◌<◌, ◌≡◌, refl, String, Option, none, some, List, [], ◌∷◌, ℕ, arith, length, if_both,
  true, ◌==◌,
}
use experiment_go.Prelude.Errors.{GoError, lit, str}
use experiment_go.Consumption.Xml.{Token, Fault}
use experiment_go.XmlFmt.Decode.{decode_text, decode_struct}
use experiment_go.XmlFmt.Decode.Shrink.{length-decode_text, length-children}
use experiment_go.XmlFmt.Loop.{Cursor, Step, Ensures, loop-Ensures}
use experiment_go.XmlFmt.Esmp.{Common, Esmp, Flush, Series, new_series, set_mrid}
use experiment_go.XmlFmt.Esmp.Rounds.{parse_period}
use experiment_go.XmlFmt.Esmp.SeriesRounds.{
  meter_of, is_scalar, after_period, scalar_child, series_child, series_token, series_step,
  parse_time_series,
}
use experiment_go.XmlFmt.Esmp.Batches.{Flushes, Kept, Left}
use experiment_go.XmlFmt.Esmp.PeriodBatches.{
  retoken, Goes, skip_child-Goes, store-Goes, parse_period-Left,
}

module _ (p : Esmp) {W : Type 0} (Inv : W → Type 0) (positive : 0 < p.batch_rows) (common : Common)
    (fault : Fault) (flush : Flush W) (flushes : Flushes p Inv flush)
    (reads : (tokens : List Token)
      → length (common.decode_interval fault tokens).1 ≤ length tokens) where
  abbrev limit : ℕ
  limit = common.max_readings_per_document

  module _ (n : ℕ) (before : Cursor W) (within : length before.tokens ≤ n) where
    abbrev Going : Step W Series → Type 0
    Going = Goes p Inv limit n before within

    after_period-Goes :
        (l : Series) (m : ℕ) (r : Option (Option GoError × Cursor W))
        → Ensures (Left p Inv limit m) r
        → m < length before.tokens
        → Going (after_period common p fault flush l r)
    after_period-Goes l m none h s = absurd h
    after_period-Goes l m (some (none, c)) h s = ((h.0, omega (arith, h.1)), omega (arith, h.1))
    after_period-Goes l m (some (some e, c)) h s = h

    module _ (l : Series) (c : Cursor W) (k : Kept p Inv limit c)
        (s : length c.tokens < length before.tokens) where
      scalar_child-Goes : (name : String) → Going (scalar_child common p fault flush name l c)
      unfolding scalar_child
      scalar_child-Goes name =
          let text : length (decode_text fault 0 "" c.tokens).1 < length before.tokens =
            omega (arith, length-decode_text fault 0 "" c.tokens) in
          if_both Going (name == "mRID")
            (store-Goes p Inv limit n before within (lit "decoding TimeSeries mRID" ∷ [])
              (λ x. record l { mrid = x }) c (decode_text fault 0 "" c.tokens) k text)
            (if_both Going (name == "businessType")
              (store-Goes p Inv limit n before within (lit "decoding businessType" ∷ [])
                (λ x. record l { business_type = x }) c (decode_text fault 0 "" c.tokens) k text)
              (if_both Going (name == "quantity_Measure_Unit.name")
                (store-Goes p Inv limit n before within (lit "decoding unit" ∷ [])
                  (λ x. record l { unit = x }) c (decode_text fault 0 "" c.tokens) k text)
                (store-Goes p Inv limit n before within (lit "decoding MarketEvaluationPoint" ∷ [])
                  (λ x. record l { meter = x }) c (decode_struct fault set_mrid "" c.tokens) k
                  (omega (arith, length-children fault none c.tokens)))))

      series_child-Goes : (name : String) → Going (series_child common p fault flush name l c)
      unfolding series_child
      series_child-Goes name =
          if_both Going (is_scalar name)
            (if_both Going l.period_seen k.world (scalar_child-Goes name))
            (if_both Going (name == "Period")
              (after_period-Goes (record l { period_seen = true }) (length c.tokens)
                (parse_period common p fault flush (meter_of l) l.business_type l.unit c)
                (parse_period-Left p Inv positive common fault flush flushes reads (meter_of l)
                  l.business_type l.unit c k)
                s)
              (skip_child-Goes p Inv limit n before within fault
                (lit "skipping TimeSeries child " ∷ str name ∷ []) l c k s))

  series_token-Goes :
      (n : ℕ) (l : Series) (c : Cursor W) (tokens : List Token)
      → length tokens ≡ length c.tokens
      → (within : length c.tokens ≤ n) → (k : Kept p Inv limit c)
      → Goes p Inv limit n c within (series_token common p fault flush l c tokens)
  unfolding series_token
  series_token-Goes n l c [] e within k = k.world
  series_token-Goes n l c (Token.end_element m ∷ rest) e within k =
      if_both (Goes p Inv limit n c within) (m.local == "TimeSeries")
        (retoken p Inv limit rest k, omega arith)
        ((retoken p Inv limit rest k, omega arith), omega arith)
  series_token-Goes n l c (Token.start_element m ∷ rest) e within k =
      series_child-Goes n c within l (record c { tokens = rest }) (retoken p Inv limit rest k)
        (omega arith) m.local
  series_token-Goes n l c (_ ∷ rest) e within k =
      ((retoken p Inv limit rest k, omega arith), omega arith)

  -- Let `Inv` be any property of the world that `flush` keeps on batches of at most batch_rows rows
  -- in canonical vocabulary, and let a flush that succeeds empty the batch. Then parseTimeSeries
  -- returns on every token stream, whatever it holds, and keeps `Inv` also when it returns an error.
  -- Without an error it leaves a batch of canonical rows that is not full, a count of rows within the
  -- document's limit, and no more tokens than there were.
  pub parse_time_series-Left :
      (c : Cursor W)
      → Kept p Inv limit c
      → Ensures (Left p Inv limit (length c.tokens)) (parse_time_series common p fault flush c)
  unfolding parse_time_series
  parse_time_series-Left c k =
      loop-Ensures (λ l c'. Kept p Inv limit c' × (length c'.tokens ≤ length c.tokens))
        (Left p Inv limit (length c.tokens)) (series_step common p fault flush)
        (λ l c' h. series_token-Goes (length c.tokens) l c' c'.tokens refl h.1 h.0)
        (suc (length c.tokens)) new_series c (k, omega arith) (omega arith)
