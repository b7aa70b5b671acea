-- ===== src/XmlFmt/Esmp/Document/Total.antt =====
-- That parsePeriod and parseTimeSeries return where nothing is flushed.
use experiment_go.Prelude.{
  ◌≤◌, ◌≡◌, refl, sym, ap, ◌∙◌, String, Option, some, List, [], arith, length,
}
use mathlib.Core.List.{append-nil}
use experiment_go.Prelude.Errors.{GoError}
use experiment_go.Consumption.{Reading}
use experiment_go.Consumption.Xml.{Token, Fault}
use experiment_go.XmlFmt.Loop.{Cursor}
use experiment_go.XmlFmt.Esmp.{Common, Esmp}
use experiment_go.XmlFmt.Esmp.Rounds.{parse_period}
use experiment_go.XmlFmt.Esmp.SeriesRounds.{parse_time_series}
use experiment_go.XmlFmt.Esmp.Batches.{Flushes, Kept, Left}
use experiment_go.XmlFmt.Esmp.PeriodBatches.{parse_period-Left}
use experiment_go.XmlFmt.Esmp.SeriesBatches.{parse_time_series-Left}
use experiment_go.XmlFmt.Esmp.Gather.{to_log, to_batch, gather, gather_end, gather_return}
use experiment_go.XmlFmt.Esmp.GatherPeriod.{parse_period-gather}
use experiment_go.XmlFmt.Esmp.GatherSeries.{parse_time_series-gather}
use experiment_go.XmlFmt.Esmp.Document.Returns.{Ensures-returned}

-- A parser that flushes every row.
abbrev row_by_row : Esmp
row_by_row = record { batch_rows = 1 }

-- The rows of the batch in the log.
abbrev in_log : Cursor (Unit {0}) → Cursor (List Reading)
in_log c = record { tokens = c.tokens; batch = []; total = c.total; world = c.batch }

abbrev Anything : List Reading → Type 0
Anything log = Unit {0}

row_by_row-Flushes : Flushes row_by_row Anything to_log
row_by_row-Flushes batch log canonical short h = (refl, tt)

gather-in_log : (c : Cursor (Unit {0})) → gather (in_log c) ≡ c
gather-in_log c = ap (λ rows. record c { batch = rows }) (append-nil c.batch)

gathered :
    (f : Cursor (List Reading) → Option (Option GoError × Cursor (List Reading)))
    (g : Cursor (Unit {0}) → Option (Option GoError × Cursor (Unit {0}))) (c : Cursor (Unit {0}))
    → gather_return (f (in_log c)) ≡ g (gather (in_log c))
    → (r : Option GoError × Cursor (List Reading)) × (f (in_log c) ≡ some r)
    → (r : Option GoError × Cursor (Unit {0})) × (g c ≡ some r)
gathered f g c same (r, h) =
    (gather_end r, ap g (sym (gather-in_log c)) ∙ sym same ∙ ap gather_return h)

module _ (common : Common) (p : Esmp) (fault : Fault)
    (reads : (tokens : List Token) → length (common.decode_interval fault tokens).1 ≤ length tokens)
    (c : Cursor (Unit {0})) (within : c.total ≤ common.max_readings_per_document) where
  in_log-Kept : Kept row_by_row Anything common.max_readings_per_document (in_log c)
  in_log-Kept = record { rows = tt; short = omega arith; counted = within; world = tt }

  pub parse_period-returns :
      (meter business_type unit : String)
      → (r : Option GoError × Cursor (Unit {0})) × (parse_period common p fault to_batch meter
            business_type unit c
          ≡ some r)
  parse_period-returns meter business_type unit =
      gathered (parse_period common row_by_row fault to_log meter business_type unit)
        (parse_period common p fault to_batch meter business_type unit) c
        (parse_period-gather common fault row_by_row p meter business_type unit (in_log c))
        (Ensures-returned
          (Left row_by_row Anything common.max_readings_per_document (length c.tokens))
          (parse_period common row_by_row fault to_log meter business_type unit (in_log c))
          (parse_period-Left row_by_row Anything (omega arith) common fault to_log
            row_by_row-Flushes reads meter business_type unit (in_log c) in_log-Kept))

  pub parse_time_series-returns :
      (r : Option GoError × Cursor (Unit {0})) × (parse_time_series common p fault to_batch c
        ≡ some r)
  parse_time_series-returns =
      gathered (parse_time_series common row_by_row fault to_log)
        (parse_time_series common p fault to_batch) c
        (parse_time_series-gather common fault row_by_row p (in_log c))
        (Ensures-returned
          (Left row_by_row Anything common.max_readings_per_document (length c.tokens))
          (parse_time_series common row_by_row fault to_log (in_log c))
          (parse_time_series-Left row_by_row Anything (omega arith) common fault to_log
            row_by_row-Flushes reads (in_log c) in_log-Kept))
