-- ===== src/HttpApi/Ingest/Outage.antt =====
-- The push endpoint, the service and the BigQuery sink together: what an answer of 503 stands for.
use experiment_go.Prelude.{ℕ, ◌≡◌, String, Option, none, some, List, [], inl, inr, arith, subst}
use experiment_go.Prelude.Errors.{GoError, Message, Result, ok, err}
use experiment_go.Consumption.{Time, utc, Reading, Delivery, Parser}
use experiment_go.Consumption.Xml.{Name, Decoder}
use experiment_go.Consumption.Registry.{Registry, for_document}
use experiment_go.Consumption.Registry.Contract.{AllParsers}
use experiment_go.Consumption.Service.{
  stamp_batch, count_rows, write_rows, on_batch, parse_document, ingest,
}
use experiment_go.Consumption.Service.Stored.{run_parsing_inv}
use experiment_go.Consumption.Service.Failures.{watch_write, watched}
use experiment_go.Consumption.Service.Retries.{IsHonest}
use experiment_go.HttpApi.Response.{Response}
use experiment_go.HttpApi.Ingest.{Push, complete, read_body, Handler, consume}
use experiment_go.HttpApi.Ingest.Contract.{
  Contract, Unsettled, untouched, repeatable, consume-Contract,
}
use experiment_go.HttpApi.Ingest.Pipeline.{wired, NewestFails, consume_retry}
use experiment_go.BqSink.{Stream, write}
use experiment_go.BqSink.Outages.{Calls, NewestPasses, IsForeign, noting, Explains, write-Explains}

module _ {W A : Type 0} (stream : Stream W A) (foreign : IsForeign stream) where
  abbrev Seen : Type 0
  Seen = (W × Calls) × List (Option GoError)

  -- If the newest write failed with an error that asks for a retry, so did the newest call.
  abbrev Linked : Seen → Type 0
  Linked ((w, calls), writes) = NewestFails writes → NewestPasses calls

  watch_write-Linked :
      (writes : List (Option GoError)) (r : Option GoError × (W × Calls))
      → Explains stream r.0 r.1.1
      → Linked (watch_write (write (noting stream)) writes r).1
  watch_write-Linked writes (none, s) h = λ k. absurd k
  watch_write-Linked writes (some e, s) h = h

  count_rows-Linked :
      (n : ℕ) (rows : List Reading) (r : Option GoError × Seen)
      → Linked r.1
      → Linked (count_rows n rows r).1.1
  count_rows-Linked n rows (none, s) h = h
  count_rows-Linked n rows (some e, s) h = h

  write_rows-Linked :
      (rows : Result (List Reading)) (s : ℕ × Seen)
      → Linked s.1
      → Linked (write_rows (watched (write (noting stream))) rows s).1.1
  write_rows-Linked (err e) s h = h
  write_rows-Linked (ok rows) (n, (s, writes)) h =
      count_rows-Linked n rows
        (watch_write (write (noting stream)) writes (write (noting stream) rows s))
        (watch_write-Linked writes (write (noting stream) rows s)
          (write-Explains stream foreign rows s))

  on_batch-Linked :
      (id : String) (now : Time) (batch : List Reading) (s : ℕ × Seen)
      → Linked s.1
      → Linked (on_batch (watched (write (noting stream))) id now batch s).1.1
  unfolding on_batch
  on_batch-Linked id now batch s h = write_rows-Linked (stamp_batch id now batch) s h

  parse_document-Linked :
      (id : String) (now : Time) (found : Result (Parser × Name × Decoder)) (w : W)
      → Linked (parse_document (watched (write (noting stream))) id now found ((w, []), [])).1.1
  parse_document-Linked id now (err e) w = λ k. absurd k
  parse_document-Linked id now (ok (parser, root, d)) w =
      run_parsing_inv (λ s. Linked s.1) (on_batch (watched (write (noting stream))) id now)
        (on_batch-Linked id now) (parser d root) (0, ((w, []), [])) (λ k. absurd k)

  ingest-Linked :
      (open_document : List ℕ → Decoder) (registry : Registry) (now : Time) (msg : Delivery) (w : W)
      → Linked
          (ingest open_document registry
            (watched (write (noting stream)))
            now
            msg
            ((w, []), [])).1.1
  unfolding ingest
  ingest-Linked open_document registry now msg w =
      parse_document-Linked msg.id (utc now) (for_document registry (open_document msg.payload)) w

  module _ (open_document : List ℕ → Decoder) (registry : Registry) (now : Time)
      (verify_token : String → Option GoError) (unmarshal : List ℕ → Result Delivery)
      (quarantine : String → List ℕ → Message → Seen → Option GoError × Seen) where
    -- The endpoint over the service and the sink.
    abbrev pub endpoint : Handler Seen
    endpoint =
        wired open_document registry (watched (write (noting stream))) now verify_token unmarshal
          quarantine

    Unsettled-NewestPasses :
        (push : Push) (w : W) (s : Seen)
        → Unsettled endpoint push ((w, []), []) s
        → NewestFails s.1
        → NewestPasses s.0.1
    Unsettled-NewestPasses push w s (untouched same) h =
        absurd (subst (λ t. NewestFails t.1) same h)
    Unsettled-NewestPasses push w s (repeatable body msg e readings read parsed ingested retry) h =
        subst (λ r. Linked r.1.1) ingested (ingest-Linked open_document registry now msg w) h

    Contract-NewestPasses :
        (push : Push) (w : W) (r : Response ⊥ × Seen)
        → Contract endpoint push ((w, []), []) r
        → r.0.status ≡ 503
        → NewestFails r.1.1
        → NewestPasses r.1.0.1
    Contract-NewestPasses push w (r, s) (inl (low, settled)) h k = absurd (omega (arith, low, h))
    Contract-NewestPasses push w (r, s) (inr (high, unsettled)) h k =
        Unsettled-NewestPasses push w s unsettled k

    -- The endpoint over Ingest and the BigQuery sink. Let the registered parsers stop at the first
    -- error of `emit` and never ask for a retry on their own account, and let no error of the
    -- BigQuery and protobuf libraries carry the mark of the program. If a push whose body arrived in
    -- full is answered by 503, then the newest call of the BigQuery client failed, with one of the
    -- five codes of failures that pass: Pub/Sub is asked to deliver a document again only because of
    -- an outage behind the sink.
    pub consume_outage :
        (push : Push) (body : List ℕ) (w : W)
        → AllParsers IsHonest registry
        → read_body push ≡ complete body
        → (consume endpoint push ((w, []), [])).0.status ≡ 503
        → NewestPasses (consume endpoint push ((w, []), [])).1.0.1
    consume_outage push body w honest read status =
        Contract-NewestPasses push w (consume endpoint push ((w, []), []))
          (consume-Contract endpoint push ((w, []), [])) status
          (consume_retry open_document registry (write (noting stream)) now verify_token unmarshal
            quarantine push body (w, []) honest read status)
