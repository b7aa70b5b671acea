-- ===== src/Consumption/Service/Recovery.antt =====
-- Sinks whose outage ends: how an Ingest that asks for a retry uses it up.
use experiment_go.Prelude.{
  ℕ, ◌≤◌, ◌<◌, ◌≡◌, refl, String, Option, none, some, List, true, false, arith,
}
use experiment_go.Prelude.Errors.{GoError, Result, ok, err, is_error, transient}
use experiment_go.Consumption.{
  Time, utc, Reading, Delivery, Parsing, run_parsing, Parser, Sink, StopsOnError,
}
use experiment_go.Consumption.Xml.{Name, Decoder}
use experiment_go.Consumption.Registry.{Registry, for_document}
use experiment_go.Consumption.Registry.Contract.{OnFound, AllParsers, for_document-AllParsers}
use experiment_go.Consumption.Service.{
  stamp_batch, count_rows, write_rows, on_batch, parse_document, ingest,
}
use experiment_go.Consumption.Service.Retries.{
  IsHonest, OwnPermanent, stamp_batch-err, for_document-permanent,
}

module _ {W : Type 0} (remaining : W → ℕ) where
  -- What a call does to the failures that the sink still has ahead of it: none are added, and an
  -- error that asks for a retry is one of them.
  abbrev pub Spends : ℕ → Option GoError → W → Type 0
  Spends before none w = remaining w ≤ before
  Spends before (some e) w =
      (remaining w ≤ before) × (is_error e transient ≡ true → remaining w < before)

  -- The sink fails with an error that asks for a retry only as often as is left.
  abbrev pub Recovers : Sink W → Type 0
  Recovers sink =
      (rows : List Reading) (w : W) → Spends (remaining w) (sink rows w).0 (sink rows w).1

  module _ (sink : Sink W) (recovers : Recovers sink) (id : String) (now : Time) where
    abbrev pub Spent : ℕ → Option GoError × (ℕ × W) → Type 0
    Spent before (e, (stored, w)) = Spends before e w

    permanent-Spends :
        (before : ℕ) (e : GoError) (w : W)
        → is_error e transient ≡ false
        → remaining w ≤ before
        → Spends before (some e) w
    permanent-Spends before e w h k = (k, λ t. absurd (cc (t, h)))

    count_rows-Spent :
        (stored before : ℕ) (rows : List Reading) (r : Option GoError × W)
        → Spends before r.0 r.1
        → Spent before (count_rows stored rows r)
    count_rows-Spent stored before rows (none, w) h = h
    count_rows-Spent stored before rows (some e, w) h = h

    write_rows-Spent :
        (rows : Result (List Reading)) (s : ℕ × W)
        → ((e : GoError) → rows ≡ err e → is_error e transient ≡ false)
        → Spent (remaining s.1) (write_rows sink rows s)
    write_rows-Spent (err e) s h = permanent-Spends (remaining s.1) e s.1 (h e refl) (omega arith)
    write_rows-Spent (ok rows) (stored, w) h =
        count_rows-Spent stored (remaining w) rows (sink rows w) (recovers rows w)

    weaken :
        (after before : ℕ) (r : Option GoError × (ℕ × W))
        → after ≤ before
        → Spent after r
        → Spent before r
    weaken after before (none, (stored, w)) h k = omega (arith, h, k)
    weaken after before (some e, (stored, w)) h k =
        (omega (arith, h, k.0), λ t. let less = k.1 t in omega (arith, h, less))

    continue-Spent :
        (next : Option GoError → Parsing) (before : ℕ)
        → ((e : GoError) → next (some e) ≡ Parsing.finish (some e))
        → (r : Option GoError × (ℕ × W)) → Spent before r
        → Spent (remaining r.1.1) (run_parsing (next none) (on_batch sink id now) r.1)
        → Spent before (run_parsing (next r.0) (on_batch sink id now) r.1)
    unfolding run_parsing
    continue-Spent next before stop (none, (stored, w)) h k =
        weaken (remaining w) before (run_parsing (next none) (on_batch sink id now) (stored, w)) h k
    continue-Spent next before stop (some e, s) h k = rw (stop e) h

    run_parsing-Spent :
        {p : Parsing}
        → StopsOnError p
        → OwnPermanent p
        → (s : ℕ × W) → Spent (remaining s.1) (run_parsing p (on_batch sink id now) s)
    unfolding run_parsing on_batch
    run_parsing-Spent (StopsOnError.finish none) own s = omega arith
    run_parsing-Spent (StopsOnError.finish (some e)) own s =
        permanent-Spends (remaining s.1) e s.1 own (omega arith)
    run_parsing-Spent (StopsOnError.emit batch next stop rest) own s =
        continue-Spent next (remaining s.1) stop (on_batch sink id now batch s)
          (write_rows-Spent (stamp_batch id now batch) s (stamp_batch-err id now batch))
          (run_parsing-Spent rest own (on_batch sink id now batch s).1)

    parse_document-Spent :
        (found : Result (Parser × Name × Decoder)) (w : W)
        → ((e : GoError) → found ≡ err e → is_error e transient ≡ false)
        → OnFound IsHonest found
        → Spent (remaining w) (parse_document sink id now found w)
    parse_document-Spent (err e) w k h = permanent-Spends (remaining w) e w (k e refl) (omega arith)
    parse_document-Spent (ok (parser, root, d)) w k h = run_parsing-Spent h.0 h.1 (0, w)

module _ {W : Type 0} (remaining : W → ℕ) (sink : Sink W) (recovers : Recovers remaining sink) where
  -- If the registered parsers stop at the first error of `emit` and never ask for a retry on their own
  -- account, an Ingest that asks for a retry has used up a failure of the sink, and no other adds one.
  pub ingest-Spent :
      (open_document : List ℕ → Decoder) (registry : Registry) (now : Time) (msg : Delivery) (w : W)
      → AllParsers IsHonest registry
      → Spent remaining sink recovers msg.id
          (utc now)
          (remaining w)
          (ingest open_document registry sink now msg w)
  unfolding ingest
  ingest-Spent open_document registry now msg w h =
      let d = open_document msg.payload in
      parse_document-Spent remaining sink recovers msg.id (utc now) (for_document registry d) w
        (for_document-permanent registry d) (for_document-AllParsers IsHonest registry d h)
