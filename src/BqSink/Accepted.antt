-- ===== src/BqSink/Accepted.antt =====
-- Ingest over the BigQuery sink: what BigQuery has confirmed when Ingest returns.
use mathlib.Core.List.{append-nil}
use experiment_go.Prelude.{
  sym, String, ℕ, ◌≡◌, refl, Option, none, some, List, [], ◌∷◌, ◌++◌, length, All, arith,
}
use experiment_go.Prelude.Errors.{GoError, Result, ok, err}
use experiment_go.Consumption.{Time, utc, Reading, Delivery, Parser}
use experiment_go.Consumption.Xml.{Name, Decoder}
use experiment_go.Consumption.Registry.{Registry, for_document}
use experiment_go.Consumption.Service.{
  stamp_batch, count_rows, write_rows, on_batch, parse_document, ingest,
}
use experiment_go.Consumption.Service.Stored.{
  IsStamped, journal_write, journal, IsCounted, ingest-IsCounted, run_parsing_inv,
}
use experiment_go.BqSink.{
  ClientError, Stream, encode_row, with_row, encode_rows, classified, on_append, on_rows, write,
}

abbrev pub Log : Type 0
Log = List (List ℕ)

module _ {W A : Type 0} (stream : Stream W A) where
  -- A stream that also keeps the rows that a result of GetResult has confirmed.
  abbrev tagged :
      Log → Log → (Option ClientError × A) × W → (Option ClientError × (A × Log)) × (W × Log)
  tagged rows log ((e, result), w) = ((e, (result, rows)), (w, log))

  abbrev noted : Log → Log → Option ClientError × W → Option ClientError × (W × Log)
  noted rows log (none, w) = (none, (w, log ++ rows))
  noted rows log (some e, w) = (some e, (w, log))

  abbrev append_noting : Log → W × Log → (Option ClientError × (A × Log)) × (W × Log)
  append_noting rows (w, log) = tagged rows log (stream.append_rows rows w)

  abbrev result_noting : A × Log → W × Log → Option ClientError × (W × Log)
  result_noting (result, rows) (w, log) = noted rows log (stream.get_result result w)

  abbrev pub confirming : Stream (W × Log) (A × Log)
  confirming = record {
    has_field = stream.has_field;
    marshal = stream.marshal;
    append_rows = append_noting;
    get_result = result_noting;
  }

  -- One row for each reading, in their order.
  abbrev pub Encoded : List Reading → Log → Type 0
  Encoded [] [] = Unit
  Encoded (r ∷ readings) (row ∷ rows) = (encode_row stream r ≡ ok row) × Encoded readings rows
  Encoded _ _ = ⊥

  Encoded-append :
      (rs : List Reading) (rows : Log) (rs' : List Reading) (rows' : Log)
      → Encoded rs rows
      → Encoded rs' rows'
      → Encoded (rs ++ rs') (rows ++ rows')
  Encoded-append [] [] rs' rows' h k = k
  Encoded-append [] (row ∷ rows) rs' rows' h k = absurd h
  Encoded-append (r ∷ rs) [] rs' rows' h k = absurd h
  Encoded-append (r ∷ rs) (row ∷ rows) rs' rows' h k = (h.0, Encoded-append rs rows rs' rows' h.1 k)

  Encoded-length : (rs : List Reading) (rows : Log) → Encoded rs rows → length rs ≡ length rows
  Encoded-length [] [] h = refl
  Encoded-length [] (row ∷ rows) h = absurd h
  Encoded-length (r ∷ rs) [] h = absurd h
  Encoded-length (r ∷ rs) (row ∷ rows) h = omega (arith, Encoded-length rs rows h.1)

  -- What the loop of Write gives, if there is no error.
  abbrev OnEncoded : List Reading → Result Log → Type 0
  OnEncoded readings (ok rows) = Encoded readings rows
  OnEncoded readings (err e) = Unit

  with_row-OnEncoded :
      (r : Reading) (readings : List Reading) (one : Result (List ℕ)) (rest : Result Log)
      → encode_row stream r ≡ one
      → OnEncoded readings rest
      → OnEncoded (r ∷ readings) (with_row confirming one rest)
  with_row-OnEncoded r readings (err e) rest h k = tt
  with_row-OnEncoded r readings (ok row) (err e) h k = tt
  with_row-OnEncoded r readings (ok row) (ok rows) h k = (h, k)

  encode_rows-OnEncoded :
      (readings : List Reading) → OnEncoded readings (encode_rows confirming readings)
  unfolding encode_rows encode_row
  encode_rows-OnEncoded [] = tt
  encode_rows-OnEncoded (r ∷ readings) =
      with_row-OnEncoded r readings (encode_row confirming r) (encode_rows confirming readings) refl
        (encode_rows-OnEncoded readings)

  -- A write that returns nil has confirmed its rows, any other has confirmed none.
  abbrev Confirms : List Reading → Log → Option GoError × (W × Log) → Type 0
  Confirms readings log (none, (w, log')) =
      (rows : Log) × (log' ≡ log ++ rows) × Encoded readings rows
  Confirms readings log (some e, (w, log')) = log' ≡ log

  noted-Confirms :
      (readings : List Reading) (rows log : Log) (r : Option ClientError × W)
      → Encoded readings rows
      → Confirms readings log (classified confirming (noted rows log r))
  noted-Confirms readings rows log (none, w) h = (rows, refl, h)
  noted-Confirms readings rows log (some e, w) h = refl

  tagged-Confirms :
      (readings : List Reading) (rows log : Log) (r : (Option ClientError × A) × W)
      → Encoded readings rows
      → Confirms readings log (on_append confirming (tagged rows log r))
  tagged-Confirms readings rows log ((some e, result), w) h = refl
  tagged-Confirms readings rows log ((none, result), w) h =
      noted-Confirms readings rows log (stream.get_result result w) h

  on_rows-Confirms :
      (readings : List Reading) (res : Result Log) (w : W) (log : Log)
      → OnEncoded readings res
      → Confirms readings log (on_rows confirming res (w, log))
  on_rows-Confirms readings (err e) w log h = refl
  on_rows-Confirms readings (ok rows) w log h =
      tagged-Confirms readings rows log (stream.append_rows rows w) h

  write-Confirms :
      (readings : List Reading) (w : W) (log : Log)
      → Confirms readings log (write confirming readings (w, log))
  unfolding write
  write-Confirms [] w log = ([], sym (append-nil log), tt)
  write-Confirms (r ∷ readings) w log =
      on_rows-Confirms (r ∷ readings) (encode_rows confirming (r ∷ readings)) w log
        (encode_rows-OnEncoded (r ∷ readings))

  -- Ingest over that stream, with the journal of what the sink has accepted.
  abbrev IngestState : Type 0
  IngestState = ℕ × ((W × Log) × List Reading)

  abbrev Matched : IngestState → Type 0
  Matched (stored, ((w, log), kept)) = Encoded kept log

  count_rows-Matched :
      (stored : ℕ) (kept rows : List Reading) (log : Log) (r : Option GoError × (W × Log))
      → Confirms rows log r
      → Encoded kept log
      → Matched (count_rows stored rows (journal_write (write confirming) kept rows r)).1
  count_rows-Matched stored kept rows log (none, (w, log')) (new, grown, h) k =
      rw grown (Encoded-append kept log rows new k h)
  count_rows-Matched stored kept rows log (some e, (w, log')) same k = rw same k

  write_rows-Matched :
      (res : Result (List Reading)) (s : IngestState)
      → Matched s
      → Matched (write_rows (journal (write confirming)) res s).1
  write_rows-Matched (err e) s h = h
  write_rows-Matched (ok rows) (stored, ((w, log), kept)) h =
      count_rows-Matched stored kept rows log (write confirming rows (w, log))
        (write-Confirms rows w log) h

  on_batch-Matched :
      (id : String) (now : Time) (batch : List Reading) (s : IngestState)
      → Matched s
      → Matched (on_batch (journal (write confirming)) id now batch s).1
  unfolding on_batch
  on_batch-Matched id now batch s h = write_rows-Matched (stamp_batch id now batch) s h

  parse_document-Matched :
      (id : String) (now : Time) (found : Result (Parser × Name × Decoder)) (w : W)
      → Matched (parse_document (journal (write confirming)) id now found ((w, []), [])).1
  parse_document-Matched id now (err e) w = tt
  parse_document-Matched id now (ok (parser, root, d)) w =
      run_parsing_inv Matched (on_batch (journal (write confirming)) id now)
        (on_batch-Matched id now) (parser d root) (0, ((w, []), [])) tt

  -- What Ingest has stored in BigQuery: the count, the rows, and the readings behind them.
  pub record IsStored (id : String) (now : Time) (s : IngestState) : Type 0 where
    pub counted : s.0 ≡ length s.1.0.1
    pub encoded : Encoded s.1.1 s.1.0.1
    pub stamped : All (IsStamped id now) s.1.1

  Matched-IsStored :
      (id : String) (now : Time) (s : IngestState)
      → IsCounted (write confirming) id now s
      → Matched s
      → IsStored id now s
  Matched-IsStored id now (stored, ((w, log), kept)) counted matched = record {
    counted = omega (arith, counted.0, Encoded-length kept log matched);
    encoded = matched;
    stamped = counted.1;
  }

  -- Whether Ingest over the BigQuery sink returns an error or not, the count it returns is the number
  -- of rows that BigQuery has confirmed. These rows are, in their order, the encodings of readings
  -- that satisfy the domain rules and carry the message's id and the time of ingestion in UTC. This
  -- holds of every registered parser, and however the client fails.
  pub ingest-IsStored :
      (open_document : List ℕ → Decoder) (registry : Registry) (now : Time) (msg : Delivery) (w : W)
      → IsStored msg.id
          (utc now)
          (ingest open_document registry (journal (write confirming)) now msg ((w, []), [])).1
  unfolding ingest
  ingest-IsStored open_document registry now msg w =
      Matched-IsStored msg.id (utc now) _
        (ingest-IsCounted open_document registry (write confirming) now msg (w, []))
        (parse_document-Matched msg.id (utc now) (for_document registry (open_document msg.payload))
          w)
