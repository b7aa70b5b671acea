-- ===== src/XmlFmt/Esmp/Document/Series.antt =====
-- The rounds of parseTimeSeries over its periods, where nothing is flushed.
use experiment_go.Prelude.{
  ℕ, Bool, arith, ◌+◌, ◌≤◌, ◌≡◌, refl, sym, String, true, Option, List, [], ◌∷◌, ◌++◌, All, length,
  length-append,
}
use mathlib.Core.List.{append-nil, append_assoc}
use mathlib.Core.Path.{subst₂}
use experiment_go.Prelude.Int.{ℤ}
use experiment_go.Prelude.Errors.{GoError}
use experiment_go.Consumption.{Reading}
use experiment_go.Consumption.Xml.{Token, Fault}
use experiment_go.XmlFmt.Loop.{Cursor, Step, again}
use experiment_go.XmlFmt.Esmp.{Common, Esmp, Series}
use experiment_go.XmlFmt.Esmp.SeriesRounds.{series_child, series_token, series_step}
use experiment_go.XmlFmt.Esmp.Gather.{to_batch}
use experiment_go.XmlFmt.Esmp.Document.{
  Layout, PointText, PeriodText, SeriesText, IsPeriod, period_tokens, period_fields, start_tag,
  indented, stated, meter_name, point_readings, period_readings,
}
use experiment_go.XmlFmt.Esmp.Document.Returns.{Returns, Returns-again}
use experiment_go.XmlFmt.Esmp.Document.Rows.{at_tokens}
use experiment_go.XmlFmt.Esmp.Document.Periods.{parse_period-fields}

length-point_readings :
    (meter business_type unit : String) (resolution : ℤ) (points : List PointText)
    → length (point_readings meter business_type unit resolution points) ≡ length points
length-point_readings meter business_type unit resolution [] = refl
length-point_readings meter business_type unit resolution (pt ∷ points) =
    omega (arith, length-point_readings meter business_type unit resolution points)

module _ (layout : Layout) (common : Common) (p : Esmp) (fault : Fault)
    (reads : (tokens : List Token) → length (common.decode_interval fault tokens).1 ≤ length tokens)
    (s : SeriesText) where
  -- The local variables behind the scalar children.
  abbrev pub at_periods : Bool → Series
  at_periods seen = record {
    mrid = s.mrid;
    business_type = s.business_type;
    unit = s.unit;
    meter = stated s.evaluation_point;
    period_seen = seen;
  }

  abbrev pub step : Series → Cursor (Unit {0}) → Step (Unit {0}) Series
  step = series_step common p fault to_batch

  abbrev pub rows : List PeriodText → List Reading
  rows = period_readings (meter_name s) s.business_type s.unit

  abbrev row : PeriodText → List Reading
  row pd = point_readings (meter_name s) s.business_type s.unit pd.resolution pd.points

  pub indented-Returns :
      (l : Series) (rest : List Token) (batch : List Reading) (total : ℕ)
      (r : Option GoError × Cursor (Unit {0}))
      → Returns step l (at_tokens rest batch total) r
      → Returns step l (at_tokens (indented layout rest) batch total) r
  unfolding series_token
  indented-Returns l rest batch total r =
      Returns-again step l (at_tokens (indented layout rest) batch total) l
        (at_tokens rest batch total) r refl

  period_round :
      (seen : Bool) (pd : PeriodText) (rest : List Token) (batch : List Reading) (total : ℕ)
      → IsPeriod common fault (meter_name s) s.unit pd
      → total + length pd.points ≤ common.max_readings_per_document
      → step
          (at_periods seen)
          (at_tokens (start_tag layout "Period" (period_fields layout pd rest)) batch total)
        ≡ again (at_periods true) (at_tokens rest (batch ++ row pd) (total + length pd.points))
  unfolding series_token series_child
  period_round seen pd rest batch total h short =
      rw
        (parse_period-fields layout common p fault (meter_name s) s.business_type s.unit pd h rest
          batch total short reads)
        refl

  -- If the loop returns `r` behind the periods, with their rows in the batch, it returns `r`.
  pub periods-Returns :
      (periods : List PeriodText) (seen : Bool) (rest : List Token) (batch : List Reading)
      (total : ℕ) (r : Option GoError × Cursor (Unit {0}))
      → All (IsPeriod common fault (meter_name s) s.unit) periods
      → total + length (rows periods) ≤ common.max_readings_per_document
      → ((seen : Bool)
          → Returns step
              (at_periods seen)
              (at_tokens rest (batch ++ rows periods) (total + length (rows periods)))
              r)
      → Returns step (at_periods seen) (at_tokens (period_tokens layout periods rest) batch total) r
  periods-Returns [] seen rest batch total r all short k =
      subst₂ (λ b t. Returns step (at_periods seen) (at_tokens rest b t) r) (append-nil batch)
        (omega arith) (k seen)
  periods-Returns (pd ∷ periods) seen rest batch total r all short k =
      let behind = period_tokens layout periods rest in
      let at_start = start_tag layout "Period" (period_fields layout pd behind) in
      let count : length (rows (pd ∷ periods)) ≡ length pd.points + length (rows periods) = omega (
        arith,
        length-append {0} (row pd) (rows periods),
        length-point_readings (meter_name s) s.business_type s.unit pd.resolution pd.points,
      ) in
      indented-Returns (at_periods seen) at_start batch total r (
        Returns-again step (at_periods seen) (at_tokens at_start batch total) (at_periods true)
          (at_tokens behind (batch ++ row pd) (total + length pd.points)) r
          (period_round seen pd behind batch total all.0 (omega (arith, short, count)))
          (periods-Returns periods true rest (batch ++ row pd) (total + length pd.points) r all.1
            (omega (arith, short, count))
            (λ seen'.
              subst₂ (λ b t. Returns step (at_periods seen') (at_tokens rest b t) r)
                (sym (append_assoc batch (row pd) (rows periods))) (omega (arith, count))
                (k seen'))))
