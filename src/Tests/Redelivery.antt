-- ===== src/Tests/Redelivery.antt =====
-- A document whose second batch fails at the first delivery.
use experiment_go.Prelude.{ℕ, zero, suc, ◌≡◌, ◌↔◌, refl, Option, none, some, [], ◌∷◌, ◌++◌, arith}
use experiment_go.Prelude.Int.{pos, ◌<ℤ◌}
use experiment_go.Prelude.Text.{trim_space, trim, trim_left, trim_right, is_space}
use experiment_go.Prelude.Errors.{GoError, sentinel, transient}
use experiment_go.Consumption.{
  Time, utc, unix_micro, Parsing, Parser, Sink, StopsOnError, validate, run_parsing,
}
use experiment_go.Consumption.Xml.{Name, Decoder}
use experiment_go.Consumption.Registry.{Registry, find_parser, for_from, for_document}
use experiment_go.Consumption.Service.{stamp_batch, on_batch, ingest}
use experiment_go.Consumption.Service.Current.{
  IsCurrent, stored_at, stored_by, result_at, redelivery-IsCurrent,
}
use experiment_go.Tests.Ingestion.{noon, row_of, root_name, opened, message}

abbrev then_last : Option GoError → Parsing
then_last (some e) = Parsing.finish (some e)
then_last none = Parsing.emit (row_of "m-2" ∷ []) Parsing.finish

abbrev two_rows : Parser
two_rows d root = Parsing.emit (row_of "m-1" ∷ []) then_last

abbrev two_rows_parsers : Registry
two_rows_parsers = (root_name, two_rows) ∷ []

two_rows-StopsOnError : (d : Decoder) (root : Name) → StopsOnError (two_rows d root)
two_rows-StopsOnError d root =
    StopsOnError.emit (row_of "m-1" ∷ []) then_last (λ e. refl)
      (StopsOnError.emit (row_of "m-2" ∷ []) Parsing.finish (λ e. refl) (StopsOnError.finish none))

-- One write of the next so many fails, the last of them.
abbrev flaky : Sink ℕ
flaky rows zero = (none, zero)
flaky rows (suc zero) = (some (sentinel transient), zero)
flaky rows (suc (suc n)) = (none, suc n)

abbrev one_hour_later : Time
one_hour_later = record noon { seconds = pos 63_900_003_600 }

second_succeeds :
    result_at opened two_rows_parsers flaky message (two_rows-StopsOnError, tt) one_hour_later 0
    ≡ none
unfolding ingest for_document for_from find_parser on_batch stamp_batch run_parsing validate
    trim_space trim trim_left trim_right is_space
second_succeeds = refl

first_before_second : unix_micro (utc noon) <ℤ unix_micro (utc one_hour_later)
unfolding unix_micro
first_before_second = omega arith

abbrev soon_after : Time
soon_after = record noon { seconds = pos 63_900_000_060 }

soon_before_last : unix_micro (utc soon_after) <ℤ unix_micro (utc one_hour_later)
unfolding unix_micro
soon_before_last = omega arith

redelivery-IsCurrent_example :
    IsCurrent
      (row_of "m-0"
        ∷ (stored_by opened two_rows_parsers flaky message
              (two_rows-StopsOnError, tt)
              ((noon, 2) ∷ (soon_after, 1) ∷ [])
            ++ stored_at opened two_rows_parsers flaky message
                (two_rows-StopsOnError, tt)
                one_hour_later
                0))
      (row_of "m-0")
    ↔ IsCurrent
        (row_of "m-0"
          ∷ stored_at opened two_rows_parsers flaky message
              (two_rows-StopsOnError, tt)
              one_hour_later
              0)
        (row_of "m-0")
redelivery-IsCurrent_example =
    redelivery-IsCurrent opened two_rows_parsers flaky message (two_rows-StopsOnError, tt)
      ((noon, 2) ∷ (soon_after, 1) ∷ []) one_hour_later 0 (row_of "m-0" ∷ []) second_succeeds
      (first_before_second, (soon_before_last, tt)) (row_of "m-0")
