-- ===== src/XmlFmt/Esmp/BlameSeries.antt =====
-- parseTimeSeries returns the error of `flush`, or a permanent one.
use experiment_go.Prelude.{
  refl, suc, ◌≤◌, ◌<◌, inl, String, true, Option, none, some, List, [], ◌∷◌, ◌==◌, length, if_both,
}
use experiment_go.Prelude.Errors.{GoError, lit, str}
use experiment_go.Consumption.{Reading}
use experiment_go.Consumption.Xml.{Token, Fault}
use experiment_go.XmlFmt.Decode.{decode_text, decode_struct}
use experiment_go.XmlFmt.Decode.Permanent.{
  fault_error-IsPermanent, decode_text-AtError, decode_struct-AtError,
}
use experiment_go.XmlFmt.Loop.{Cursor, Ensures}
use experiment_go.XmlFmt.Esmp.{Common, Esmp, Flush, set_mrid, Series, new_series}
use experiment_go.XmlFmt.Esmp.Rounds.{parse_period}
use experiment_go.XmlFmt.Esmp.SeriesRounds.{
  meter_of, is_scalar, after_period, scalar_child, series_child, series_token, series_step,
  parse_time_series,
}
use experiment_go.XmlFmt.Esmp.Batches.{Flushed, Flushes}
use experiment_go.XmlFmt.Esmp.SeriesBatches.{parse_time_series-Left}
use experiment_go.XmlFmt.Esmp.Blame.{
  Permanent, Calls, Clean, noted, noting, Blamed, Returned, Fine, loop-Returned, skip_child-Fine,
  store-Fine, set_mrid-AtError,
}
use experiment_go.Prelude.{arith}
use experiment_go.XmlFmt.Esmp.BlamePeriod.{parse_period-Returned}

module _ {W : Type 0} (common : Common) (permanent : Permanent common) (p : Esmp) (fault : Fault)
    (flush : Flush W) where
  after_period-Fine :
      (l : Series) (r : Option (Option GoError × Cursor (W × Calls)))
      → Returned r
      → Fine (after_period common p fault (noting flush) l r)
  after_period-Fine l none h = tt
  after_period-Fine l (some (none, c)) h = h
  after_period-Fine l (some (some e, c)) h = h

  scalar_child-Fine :
      (name : String) (l : Series) (c : Cursor (W × Calls))
      → Clean c.world.1
      → Fine (scalar_child common p fault (noting flush) name l c)
  unfolding scalar_child
  scalar_child-Fine name l c h =
      let text = decode_text fault 0 "" c.tokens in
      let permanent_text = decode_text-AtError fault 0 "" c.tokens in
      if_both Fine (name == "mRID")
        (store-Fine (lit "decoding TimeSeries mRID" ∷ []) (λ x. record l { mrid = x }) c text h
          permanent_text)
        (if_both Fine (name == "businessType")
          (store-Fine (lit "decoding businessType" ∷ []) (λ x. record l { business_type = x }) c
            text h permanent_text)
          (if_both Fine (name == "quantity_Measure_Unit.name")
            (store-Fine (lit "decoding unit" ∷ []) (λ x. record l { unit = x }) c text h
              permanent_text)
            (store-Fine (lit "decoding MarketEvaluationPoint" ∷ []) (λ x. record l { meter = x }) c
              (decode_struct fault set_mrid "" c.tokens) h
              (decode_struct-AtError fault set_mrid set_mrid-AtError "" c.tokens))))

  series_child-Fine :
      (name : String) (l : Series) (c : Cursor (W × Calls))
      → Clean c.world.1
      → Fine (series_child common p fault (noting flush) name l c)
  unfolding series_child
  series_child-Fine name l c h =
      if_both Fine (is_scalar name)
        (if_both Fine l.period_seen (inl (h, refl)) (scalar_child-Fine name l c h))
        (if_both Fine (name == "Period")
          (after_period-Fine (record l { period_seen = true })
            (parse_period common p fault (noting flush) (meter_of l) l.business_type l.unit c)
            (parse_period-Returned common permanent p fault flush (meter_of l) l.business_type
              l.unit c h))
          (skip_child-Fine fault (lit "skipping TimeSeries child " ∷ str name ∷ []) l c h))

  series_token-Fine :
      (l : Series) (c : Cursor (W × Calls)) (tokens : List Token)
      → Clean c.world.1
      → Fine (series_token common p fault (noting flush) l c tokens)
  unfolding series_token
  series_token-Fine l c [] h = inl (h, fault_error-IsPermanent fault)
  series_token-Fine l c (Token.end_element n ∷ rest) h = if_both Fine (n.local == "TimeSeries") h h
  series_token-Fine l c (Token.start_element n ∷ rest) h =
      series_child-Fine n.local l (record c { tokens = rest }) h
  series_token-Fine l c (_ ∷ rest) h = h

  parse_time_series-Returned :
      (c : Cursor (W × Calls))
      → Clean c.world.1
      → Returned (parse_time_series common p fault (noting flush) c)
  unfolding parse_time_series
  parse_time_series-Returned c h =
      loop-Returned (series_step common p fault (noting flush))
        (λ l c' k. series_token-Fine l c' c'.tokens k) (suc (length c.tokens)) new_series c h

  -- With what `parse_time_series-Left` says of its return.
  Ensures-Blamed :
      (Q : Option GoError → Cursor (W × Calls) → Type 0)
      (r : Option (Option GoError × Cursor (W × Calls)))
      → Ensures Q r
      → Returned r
      → Ensures Blamed r
  Ensures-Blamed Q none h k = absurd h
  Ensures-Blamed Q (some (e, c)) h k = k

  -- The promise of `flush` is kept if its results are noted.
  noting-Flushes :
      Flushes p {W = W} (λ w. Unit) flush → Flushes p {W = W × Calls} (λ w. Unit) (noting flush)
  noting-Flushes flushes batch (w, calls) rows short h =
      noted-Flushed (flush batch w) (flushes batch w rows short tt)
    where
      noted-Flushed :
          (r : Option GoError × (List Reading × W))
          → Flushed p {W = W} (λ w. Unit) r
          → Flushed p {W = W × Calls} (λ w. Unit) (noted calls r)
      noted-Flushed (none, (batch, w)) h = h
      noted-Flushed (some e, (batch, w)) h = h

  -- If `flush` empties the batch whenever it succeeds, and the functions outside of the repository
  -- return no error that asks for a retry and read no more tokens than there are, then
  -- parseTimeSeries returns on every token stream; it returns nil only if every call of `flush` has
  -- succeeded, and an error either of a failed `flush`, which was then the last call, or one that
  -- does not ask for a retry, after calls that all succeeded.
  pub parse_time_series-Blamed :
      (0 < p.batch_rows)
      → Flushes p {W = W} (λ w. Unit) flush
      → ((tokens : List Token) → length (common.decode_interval fault tokens).1 ≤ length tokens)
      → (tokens : List Token) (w : W)
      → Ensures Blamed (
          parse_time_series common p fault
            (noting flush)
            (record { tokens = tokens; batch = []; total = 0; world = (w, []) }))
  parse_time_series-Blamed positive flushes reads tokens w =
      let c : Cursor (W × Calls) = record {
        tokens = tokens;
        batch = [];
        total = 0;
        world = (w, []);
      } in
      Ensures-Blamed _ (parse_time_series common p fault (noting flush) c)
        (parse_time_series-Left p (λ w. Unit) positive common fault (noting flush)
          (noting-Flushes flushes) reads c
          (record { rows = tt; short = positive; counted = omega arith; world = tt }))
        (parse_time_series-Returned c tt)
