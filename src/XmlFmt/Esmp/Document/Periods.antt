-- ===== src/XmlFmt/Esmp/Document/Periods.antt =====
-- A whole Period, read back.
use experiment_go.Prelude.{
  ℕ, suc, Bool, arith, ◌+◌, ◌≤◌, ◌≡◌, refl, String, true, false, Option, none, some, List, ◌∷◌,
  ◌++◌, length,
}
use experiment_go.Prelude.Errors.{GoError}
use experiment_go.Consumption.{Reading}
use experiment_go.Consumption.Xml.{Token, Fault}
use experiment_go.XmlFmt.Loop.{Cursor, Step, again, stop}
use experiment_go.XmlFmt.Esmp.{Common, Esmp, Period, new_period}
use experiment_go.XmlFmt.Esmp.Rounds.{period_child, period_token, parse_period}
use experiment_go.XmlFmt.Esmp.Gather.{to_batch}
use experiment_go.XmlFmt.Esmp.Document.{
  Layout, PeriodText, IsPeriod, point_tokens, period_fields, start_tag, end_tag, indented,
}
use experiment_go.XmlFmt.Esmp.Document.Returns.{Returns, Returns-stop, Returns-again, Returns-loop}
use experiment_go.XmlFmt.Esmp.Document.Total.{parse_period-returns}
use experiment_go.XmlFmt.Esmp.Document.Points.{decode_text-scalar}
use experiment_go.XmlFmt.Esmp.Document.Rows.{
  at_tokens, at_points, step, rows, indented-Returns, points-Returns,
}

module _ (layout : Layout) (common : Common) (p : Esmp) (fault : Fault)
    (meter business_type unit : String) (pd : PeriodText) (h : IsPeriod common fault meter unit pd)
    (rest : List Token) (batch : List Reading) (total : ℕ) where
  -- The local variables behind the start.
  abbrev started : Period
  started = record new_period { start_time = pd.start; have_start = true }

  abbrev pub period_end : Option GoError × Cursor (Unit {0})
  period_end = (
    none,
    at_tokens rest (batch ++ rows common p fault layout meter business_type unit pd pd.points)
        (total + length pd.points),
  )

  abbrev round : Period → Cursor (Unit {0}) → Step (Unit {0}) Period
  round = step common p fault layout meter business_type unit pd

  interval_round :
      (tokens : List Token)
      → round new_period
          (at_tokens (start_tag layout "timeInterval" (pd.interval ++ tokens)) batch total)
        ≡ again started (at_tokens tokens batch total)
  unfolding period_token period_child
  interval_round tokens = rw (h.interval tokens, h.start) refl

  resolution_round :
      (tokens : List Token)
      → round started (
          at_tokens
            (start_tag layout "resolution"
              (Token.char_data pd.resolution_text ∷ end_tag layout "resolution" tokens))
            batch
            total)
        ≡ again
            (at_points common p fault layout meter business_type unit pd false)
            (at_tokens tokens batch total)
  unfolding period_token period_child
  resolution_round tokens =
      rw (decode_text-scalar layout fault "resolution" pd.resolution_text tokens, h.resolution) refl

  end_round :
      (seen : Bool)
      → round (at_points common p fault layout meter business_type unit pd seen) (
          at_tokens
            (end_tag layout "Period" rest)
            (batch ++ rows common p fault layout meter business_type unit pd pd.points)
            (total + length pd.points))
        ≡ stop period_end.0 period_end.1
  unfolding period_token
  end_round seen = refl

  module _ (short : total + length pd.points ≤ common.max_readings_per_document) where
    points_end :
        Returns round
          (at_points common p fault layout meter business_type unit pd false)
          (at_tokens
            (point_tokens layout pd.points (indented layout (end_tag layout "Period" rest)))
            batch
            total)
          period_end
    points_end =
        points-Returns common p fault layout meter business_type unit pd pd.points false
          (indented layout (end_tag layout "Period" rest)) batch total period_end h.context h.points
          short
          (λ s.
            indented-Returns common p fault layout meter business_type unit pd
              (at_points common p fault layout meter business_type unit pd s)
              (end_tag layout "Period" rest) period_end.1.batch period_end.1.total period_end
              (Returns-stop round (at_points common p fault layout meter business_type unit pd s)
                (at_tokens (end_tag layout "Period" rest) period_end.1.batch period_end.1.total)
                none period_end.1 (end_round s)))

    period_fields-Returns :
        Returns round new_period (at_tokens (period_fields layout pd rest) batch total) period_end
    period_fields-Returns =
        let tail = point_tokens layout pd.points (indented layout (end_tag layout "Period" rest)) in
        let res =
          start_tag layout "resolution"
            (Token.char_data pd.resolution_text ∷ end_tag layout "resolution" tail) in
        let int = start_tag layout "timeInterval" (pd.interval ++ indented layout res) in
        indented-Returns common p fault layout meter business_type unit pd new_period int batch
          total period_end
          (Returns-again round new_period (at_tokens int batch total) started
            (at_tokens (indented layout res) batch total) period_end
            (interval_round (indented layout res))
            (indented-Returns common p fault layout meter business_type unit pd started res batch
              total period_end
              (Returns-again round started (at_tokens res batch total)
                (at_points common p fault layout meter business_type unit pd false)
                (at_tokens tail batch total) period_end (resolution_round tail) points_end)))

    -- parsePeriod adds the rows of the points.
    pub parse_period-fields :
        ((tokens : List Token) → length (common.decode_interval fault tokens).1 ≤ length tokens)
        → parse_period common p fault to_batch meter business_type unit
            (at_tokens (period_fields layout pd rest) batch total)
          ≡ some period_end
    unfolding parse_period
    parse_period-fields reads =
        let c = at_tokens (period_fields layout pd rest) batch total in
        Returns-loop round (suc (length c.tokens)) new_period c period_end period_fields-Returns (
          parse_period-returns common p fault reads c (omega (arith, short)) meter business_type
            unit)
