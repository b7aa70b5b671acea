-- ===== src/Consumption/Service/Failures.antt =====
-- Where Ingest's errors come from, and that nothing is written after a write that failed.
use experiment_go.Prelude.{ℕ, ◌≡◌, refl, String, Option, none, some, List, [], ◌∷◌, All}
use experiment_go.Prelude.Errors.{GoError, Result, ok, err}
use experiment_go.Consumption.{
  Time, utc, Reading, Delivery, Parsing, run_parsing, Parser, Sink, StopsOnError,
}
use experiment_go.Consumption.Xml.{Name, Decoder}
use experiment_go.Consumption.Registry.{Registry, for_document}
use experiment_go.Consumption.Registry.Contract.{OnFound, AllParsers, for_document-AllParsers}
use experiment_go.Consumption.Service.{
  stamp_batch, count_rows, write_rows, on_batch, parse_document, ingest,
}

-- A sink that also keeps the outcome of every write, the newest first.
module _ {W : Type 0} (sink : Sink W) where
  abbrev pub watch_write :
      List (Option GoError) → Option GoError × W → Option GoError × (W × List (Option GoError))
  watch_write log (e, w) = (e, (w, e ∷ log))

  abbrev pub watched : Sink (W × List (Option GoError))
  watched rows (w, log) = watch_write log (sink rows w)

-- All writes succeeded.
abbrev pub AllSucceeded : List (Option GoError) → Type 0
AllSucceeded = All (λ e. e ≡ none)

-- All writes succeeded but perhaps the last, and then its error is the one that is returned.
abbrev pub FailsLast : Option GoError → List (Option GoError) → Type 0
FailsLast result [] = Unit
FailsLast result (none ∷ log) = AllSucceeded log
FailsLast result (some e ∷ log) = (result ≡ some e) × AllSucceeded log

FailsLast-AllSucceeded :
    (result : Option GoError) (log : List (Option GoError))
    → AllSucceeded log
    → FailsLast result log
FailsLast-AllSucceeded result [] h = tt
FailsLast-AllSucceeded result (none ∷ log) h = h.1
FailsLast-AllSucceeded result (some e ∷ log) h = cc (h.0)

module _ {W : Type 0} (sink : Sink W) (id : String) (now : Time) where
  -- What one call of `emit` leaves: success everywhere, or an error that is returned and, if the
  -- sink gave it, stands last.
  abbrev Emitted : Option GoError × (ℕ × (W × List (Option GoError))) → Type 0
  Emitted (none, (n, (w, log))) = AllSucceeded log
  Emitted (some e, (n, (w, log))) = FailsLast (some e) log

  count_rows-Emitted :
      (n : ℕ) (rows : List Reading) (log : List (Option GoError)) (written : Option GoError × W)
      → AllSucceeded log
      → Emitted (count_rows n rows (watch_write sink log written))
  count_rows-Emitted n rows log (none, w) h = (refl, h)
  count_rows-Emitted n rows log (some e, w) h = (refl, h)

  write_rows-Emitted :
      (res : Result (List Reading)) (s : ℕ × (W × List (Option GoError)))
      → AllSucceeded s.1.1
      → Emitted (write_rows (watched sink) res s)
  write_rows-Emitted (err e) s h = FailsLast-AllSucceeded (some e) s.1.1 h
  write_rows-Emitted (ok rows) (n, (w, log)) h = count_rows-Emitted n rows log (sink rows w) h

  abbrev Ended : Option GoError × (ℕ × (W × List (Option GoError))) → Type 0
  Ended (result, (n, (w, log))) = FailsLast result log

  -- What follows a call of `emit` in a run of a parser that stops on errors.
  continue-Ended :
      (next : Option GoError → Parsing)
      → ((e : GoError) → next (some e) ≡ Parsing.finish (some e))
      → (r : Option GoError × (ℕ × (W × List (Option GoError)))) → Emitted r
      → (AllSucceeded r.1.1.1
          → Ended (run_parsing (next none) (on_batch (watched sink) id now) r.1))
      → Ended (run_parsing (next r.0) (on_batch (watched sink) id now) r.1)
  unfolding run_parsing
  continue-Ended next stop (none, s) h k = k h
  continue-Ended next stop (some e, s) h k = rw (stop e) h

  run_parsing-Ended :
      {p : Parsing}
      → StopsOnError p
      → (s : ℕ × (W × List (Option GoError))) → AllSucceeded s.1.1
      → Ended (run_parsing p (on_batch (watched sink) id now) s)
  unfolding run_parsing on_batch
  run_parsing-Ended (StopsOnError.finish e) s h = FailsLast-AllSucceeded e s.1.1 h
  run_parsing-Ended (StopsOnError.emit batch next stop rest) s h =
      continue-Ended next stop (on_batch (watched sink) id now batch s)
        (write_rows-Emitted (stamp_batch id now batch) s h)
        (run_parsing-Ended rest (on_batch (watched sink) id now batch s).1)

  parse_document-Ended :
      (found : Result (Parser × Name × Decoder)) (w : W)
      → OnFound StopsOnError found
      → Ended (parse_document (watched sink) id now found (w, []))
  parse_document-Ended (err e) w h = tt
  parse_document-Ended (ok (parser, root, d)) w h = run_parsing-Ended h (0, (w, [])) tt

-- If every registered parser stops at the first error of `emit`, as the contract of a parser says,
-- then nothing is written after a write that failed: every write succeeded but perhaps the last,
-- and the error of that one is the error that Ingest returns.
pub ingest-FailsLast :
    {W : Type 0} (open_document : List ℕ → Decoder) (registry : Registry) (sink : Sink W)
    (now : Time) (msg : Delivery) (w : W)
    → AllParsers StopsOnError registry
    → Ended sink msg.id (utc now) (ingest open_document registry (watched sink) now msg (w, []))
unfolding ingest
ingest-FailsLast open_document registry sink now msg w h =
    parse_document-Ended sink msg.id (utc now) (for_document registry (open_document msg.payload)) w
      (for_document-AllParsers StopsOnError registry (open_document msg.payload) h)
