-- ===== src/Consumption/Service.antt =====
-- internal/consumption/service.go. The log is left out.
pub mod Stored
pub mod Failures
pub mod Retries
pub mod Recovery
pub mod Replay
pub mod Current
use experiment_go.Prelude.{ℕ, ◌+◌, String, Option, none, some, List, [], ◌∷◌, length}
use experiment_go.Prelude.Errors.{GoError, Result, ok, err, ◌>>=◌}
use experiment_go.Consumption.{
  Time, utc, Reading, validate, Delivery, Parsing, run_parsing, Parser, Sink,
}
use experiment_go.Consumption.Xml.{Name, Decoder}
use experiment_go.Consumption.Registry.{Registry, for_document}

-- What the loop over a batch writes into one reading.
abbrev pub stamp : String → Time → Reading → Reading
stamp id now r = record r { source_message_id = id; ingested_at = now }

abbrev keep_if_valid : Reading → Option GoError → Result (List Reading) → Result (List Reading)
keep_if_valid r (some e) rest = err e
keep_if_valid r none (ok rows) = ok (r ∷ rows)
keep_if_valid r none (err e) = err e

-- The loop over a batch: it stops at the first reading that is not valid.
unfoldable pub stamp_batch : String → Time → List Reading → Result (List Reading)
stamp_batch id now [] = ok []
stamp_batch id now (r ∷ batch) =
    keep_if_valid (stamp id now r) (validate (stamp id now r)) (stamp_batch id now batch)

module _ {W : Type 0} where
  -- `stored += len(batch)` after a write that succeeded.
  abbrev pub count_rows : ℕ → List Reading → Option GoError × W → Option GoError × (ℕ × W)
  count_rows stored rows (none, w) = (none, (stored + length rows, w))
  count_rows stored rows (some e, w) = (some e, (stored, w))

  abbrev pub write_rows : Sink W → Result (List Reading) → ℕ × W → Option GoError × (ℕ × W)
  write_rows sink (err e) s = (some e, s)
  write_rows sink (ok rows) (stored, w) = count_rows stored rows (sink rows w)

  -- The function that Ingest passes for `emit`, on the rows stored so far and the sink's world.
  unfoldable pub on_batch : Sink W → String → Time → List Reading → ℕ × W → Option GoError × (ℕ × W)
  unfolding stamp_batch
  on_batch sink id now batch s = write_rows sink (stamp_batch id now batch) s

  abbrev pub parse_document :
      Sink W → String → Time → Result (Parser × Name × Decoder) → W → Option GoError × (ℕ × W)
  parse_document sink id now (err e) w = (some e, (0, w))
  parse_document sink id now (ok (parser, root, d)) w =
      run_parsing (parser d root) (on_batch sink id now) (0, w)

  -- Service.Ingest: the error, the rows stored, and the world. `open_document` is xml.NewDecoder on
  -- the payload, `now` the time that s.Now returns.
  unfoldable pub ingest :
      (List ℕ → Decoder) → Registry → Sink W → Time → Delivery → W → Option GoError × (ℕ × W)
  unfolding on_batch run_parsing
  ingest open_document registry sink now msg w =
      parse_document sink msg.id (utc now) (for_document registry (open_document msg.payload)) w
