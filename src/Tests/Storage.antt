-- ===== src/Tests/Storage.antt =====
-- Ingest into a stream that confirms every batch.
use experiment_go.Prelude.{ℕ, suc, String, true, none, [], ◌∷◌}
use experiment_go.Prelude.Errors.{ok}
use experiment_go.Consumption.{utc}
use experiment_go.Consumption.Service.{ingest}
use experiment_go.Consumption.Service.Stored.{journal}
use experiment_go.BqSink.{Stream, write}
use experiment_go.BqSink.Accepted.{confirming, IsStored, ingest-IsStored}
use experiment_go.Tests.Ingestion.{noon, parsers, opened, message}

-- The world counts the calls.
abbrev willing : Stream ℕ String
willing = record {
  has_field = λ name. true;
  marshal = λ values. ok (10 ∷ []);
  append_rows = λ rows n. ((none, "result"), suc n);
  get_result = λ result n. (none, suc n);
}

ingest-IsStored_example :
    IsStored willing "msg-7"
      (utc noon)
      (ingest opened parsers (journal (write (confirming willing))) noon message ((0, []), [])).1
ingest-IsStored_example = ingest-IsStored willing opened parsers noon message 0
