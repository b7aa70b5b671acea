-- ===== src/Consumption/Service/Retries.antt =====
-- Which errors of Ingest ask for a retry.
use experiment_go.Prelude.{
  ℕ, ◌≡◌, ◌⊎◌, inl, inr, refl, String, Option, none, some, List, [], ◌∷◌, false, arith,
}
use experiment_go.Prelude.Errors.{GoError, Result, ok, err, is_error, transient}
use experiment_go.Consumption.{
  Time, utc, Reading, Delivery, Parsing, run_parsing, Parser, Sink, StopsOnError,
}
use experiment_go.Consumption.Xml.{Name, Decoder}
use experiment_go.Consumption.Validation.{validate-chain}
use experiment_go.Consumption.Registry.{Registry, for_document}
use experiment_go.Consumption.Registry.Contract.{OnFound, AllParsers, for_document-AllParsers}
use experiment_go.Consumption.Registry.Lookup.{for_document-err}
use experiment_go.Consumption.Service.{
  stamp, stamp_batch, count_rows, write_rows, on_batch, parse_document, ingest,
}
use experiment_go.Consumption.Service.Failures.{watch_write, watched}

-- No error of the parser's own asks for a retry.
abbrev pub OwnPermanent : Parsing → Type 0
OwnPermanent (Parsing.finish none) = Unit
OwnPermanent (Parsing.finish (some e)) = is_error e transient ≡ false
OwnPermanent (Parsing.emit batch next) = OwnPermanent (next none)

-- Such a parser, which also stops at the first error of `emit`.
abbrev pub IsHonest : Parsing → Type 0
IsHonest p = StopsOnError p × OwnPermanent p

-- If the result asks for a retry, it is the error of the newest write.
abbrev pub Blames : Option GoError → List (Option GoError) → Type 0
Blames none log = Unit
Blames (some e) [] = is_error e transient ≡ false
Blames (some e) (o ∷ log) = (is_error e transient ≡ false) ⊎ (o ≡ some e)

permanent-Blames :
    (e : GoError) (log : List (Option GoError)) → is_error e transient ≡ false → Blames (some e) log
permanent-Blames e [] h = h
permanent-Blames e (o ∷ log) h = inl h

pub stamp_batch-err :
    (id : String) (now : Time) (batch : List Reading) (e : GoError)
    → stamp_batch id now batch ≡ err e
    → is_error e transient ≡ false
unfolding stamp_batch
stamp_batch-err id now [] e h = cc
stamp_batch-err id now (r ∷ batch) e h =
    ground (arith, stamp_batch-err id now batch e, validate-chain (stamp id now r) e)

module _ {W : Type 0} (sink : Sink W) (id : String) (now : Time) where
  abbrev Blamed : Option GoError × (ℕ × (W × List (Option GoError))) → Type 0
  Blamed (result, (n, (w, log))) = Blames result log

  count_rows-Blamed :
      (n : ℕ) (rows : List Reading) (log : List (Option GoError)) (written : Option GoError × W)
      → Blamed (count_rows n rows (watch_write sink log written))
  count_rows-Blamed n rows log (none, w) = tt
  count_rows-Blamed n rows log (some e, w) = inr refl

  write_rows-Blamed :
      (res : Result (List Reading)) (s : ℕ × (W × List (Option GoError)))
      → ((e : GoError) → res ≡ err e → is_error e transient ≡ false)
      → Blamed (write_rows (watched sink) res s)
  write_rows-Blamed (err e) s h = permanent-Blames e s.1.1 (h e refl)
  write_rows-Blamed (ok rows) (n, (w, log)) h = count_rows-Blamed n rows log (sink rows w)

  continue-Blamed :
      (next : Option GoError → Parsing)
      → ((e : GoError) → next (some e) ≡ Parsing.finish (some e))
      → (r : Option GoError × (ℕ × (W × List (Option GoError)))) → Blamed r
      → Blamed (run_parsing (next none) (on_batch (watched sink) id now) r.1)
      → Blamed (run_parsing (next r.0) (on_batch (watched sink) id now) r.1)
  unfolding run_parsing
  continue-Blamed next stop (none, s) h k = k
  continue-Blamed next stop (some e, s) h k = rw (stop e) h

  run_parsing-Blamed :
      {p : Parsing}
      → StopsOnError p
      → OwnPermanent p
      → (s : ℕ × (W × List (Option GoError)))
      → Blamed (run_parsing p (on_batch (watched sink) id now) s)
  unfolding run_parsing on_batch
  run_parsing-Blamed (StopsOnError.finish none) own s = tt
  run_parsing-Blamed (StopsOnError.finish (some e)) own s = permanent-Blames e s.1.1 own
  run_parsing-Blamed (StopsOnError.emit batch next stop rest) own s =
      continue-Blamed next stop (on_batch (watched sink) id now batch s)
        (write_rows-Blamed (stamp_batch id now batch) s (stamp_batch-err id now batch))
        (run_parsing-Blamed rest own (on_batch (watched sink) id now batch s).1)

  parse_document-Blamed :
      (found : Result (Parser × Name × Decoder)) (w : W)
      → ((e : GoError) → found ≡ err e → is_error e transient ≡ false)
      → OnFound IsHonest found
      → Blamed (parse_document (watched sink) id now found (w, []))
  parse_document-Blamed (err e) w k h = k e refl
  parse_document-Blamed (ok (parser, root, d)) w k h = run_parsing-Blamed h.0 h.1 (0, (w, []))

pub for_document-permanent :
    (registry : Registry) (d : Decoder) (e : GoError)
    → for_document registry d ≡ err e
    → is_error e transient ≡ false
for_document-permanent registry d e h = ground (arith, for_document-err registry d e h)

-- If the registered parsers stop at the first error of `emit` and never ask for a retry on their
-- own account, then an error of Ingest that asks for a retry is the error of the sink's last write.
pub ingest-Blames :
    {W : Type 0} (open_document : List ℕ → Decoder) (registry : Registry) (sink : Sink W)
    (now : Time) (msg : Delivery) (w : W)
    → AllParsers IsHonest registry
    → Blamed sink msg.id (utc now) (ingest open_document registry (watched sink) now msg (w, []))
unfolding ingest
ingest-Blames open_document registry sink now msg w h =
    let d = open_document msg.payload in
    parse_document-Blamed sink msg.id (utc now) (for_document registry d) w
      (for_document-permanent registry d) (for_document-AllParsers IsHonest registry d h)
