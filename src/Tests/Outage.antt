-- ===== src/Tests/Outage.antt =====
-- A push while BigQuery is unavailable.
use experiment_go.Prelude.{ℕ, zero, suc, arith, ◌≡◌, refl, String, true, none, some, [], ◌∷◌}
use experiment_go.Prelude.Text.{trim_space, trim, trim_left, trim_right, is_space}
use experiment_go.Prelude.Errors.{ok, lit, plain_error, sentinel, transient}
use experiment_go.Consumption.{Sink, validate, run_parsing}
use experiment_go.Consumption.Registry.{find_parser, for_from, for_document}
use experiment_go.Consumption.Service.{stamp_batch, on_batch, ingest}
use experiment_go.HttpApi.Ingest.{
  bearer_token, cut_prefix, read_body, on_body, on_envelope, answer, park, consume,
}
use experiment_go.HttpApi.Ingest.Outage.{endpoint, consume_outage}
use experiment_go.Consumption.Service.Recovery.{Recovers}
use experiment_go.HttpApi.Ingest.Pipeline.{wired}
use experiment_go.HttpApi.Ingest.Redelivery.{SettledAtLast, redeliver, redelivery_ends}
use experiment_go.BqSink.{Stream, unavailable, classify, encode_row, encode_rows, write}
use experiment_go.BqSink.Schema.{reading_to_values}
use experiment_go.BqSink.Outages.{NewestPasses, IsForeign}
use experiment_go.Tests.Ingestion.{noon, parsers, opened, two_batches-IsHonest}
use experiment_go.Tests.Endpoint.{checked, read_envelope, kept, push, body_read, token_good}

-- The rows are taken, but their result is that the service is unavailable.
abbrev failing : Stream ℕ String
failing = record {
  has_field = λ name. true;
  marshal = λ values. ok (10 ∷ []);
  append_rows = λ rows n. ((none, "result"), suc n);
  get_result = λ result n.
      (some (record { code = unavailable; error = plain_error (lit "try later" ∷ []) }), suc n);
}

failing-IsForeign : IsForeign failing
failing-IsForeign = record {
  on_marshal = λ values. tt;
  on_append = λ rows w. tt;
  on_result = λ result w. refl;
}

push_503 :
    (consume
      (endpoint failing failing-IsForeign opened parsers noon checked read_envelope kept)
      push
      ((0, []), [])).0.status
    ≡ 503
unfolding consume bearer_token cut_prefix read_body on_body on_envelope answer park ingest
    for_document for_from find_parser on_batch stamp_batch run_parsing validate trim_space trim
    trim_left trim_right is_space write encode_rows encode_row reading_to_values classify
push_503 = refl

consume_outage_example :
    NewestPasses
      (consume
        (endpoint failing failing-IsForeign opened parsers noon checked read_envelope kept)
        push
        ((0, []), [])).1.0.1
consume_outage_example =
    consume_outage failing failing-IsForeign opened parsers noon checked read_envelope kept push
      (123 ∷ 125 ∷ []) 0 (two_batches-IsHonest, tt) body_read push_503

-- A sink with as many failures ahead as its world counts.
abbrev recovering : Sink ℕ
recovering rows zero = (none, zero)
recovering rows (suc n) = (some (sentinel transient), n)

recovering-Recovers : Recovers (λ n. n) recovering
recovering-Recovers rows zero = omega arith
recovering-Recovers rows (suc n) = (omega arith, λ t. omega arith)

redelivery_ends_example :
    SettledAtLast
      (λ n. n)
      (wired opened parsers recovering noon checked read_envelope kept)
      push
      (redeliver (wired opened parsers recovering noon checked read_envelope kept) push 3 2)
redelivery_ends_example =
    redelivery_ends (λ n. n) opened parsers recovering noon checked read_envelope kept push
      (123 ∷ 125 ∷ []) 2 recovering-Recovers (two_batches-IsHonest, tt) token_good body_read
