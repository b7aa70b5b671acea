-- ===== src/Consumption/Service/Replay.antt =====
-- What a document's Ingest stores, independently of the sink: a delivery that fails has stored a
-- first part of it, and a later delivery stores the same rows under its own time.
use experiment_go.Prelude.{
  ℕ, ◌≡◌, refl, sym, ap, ◌∙◌, String, Option, none, some, List, [], ◌∷◌, ◌++◌, map, ◌+◌, length,
}
use mathlib.Core.List.{append-nil, append_assoc, map-append}
use experiment_go.Prelude.Errors.{GoError, Result, ok, err}
use experiment_go.Consumption.{
  Time, utc, Reading, validate, Delivery, Parsing, run_parsing, Parser, Sink, StopsOnError,
}
use experiment_go.Consumption.Xml.{Name, Decoder}
use experiment_go.Consumption.Registry.{Registry, for_document}
use experiment_go.Consumption.Registry.Contract.{OnFound, AllParsers, for_document-AllParsers}
use experiment_go.Consumption.Service.{
  stamp, keep_if_valid, stamp_batch, count_rows, write_rows, on_batch, parse_document, ingest,
}
use experiment_go.Consumption.Service.Stored.{journal_write, journal}

-- The rows of a batch before those behind it; a batch with an invalid reading ends the document.
abbrev on_stamped : Result (List Reading) → List Reading → List Reading
on_stamped (err e) rest = []
on_stamped (ok rows) rest = rows ++ rest

-- The rows that a parser hands out as long as nothing fails, as they are stored.
abbrev pub rows_of : String → Time → Parsing → List Reading
rows_of id now (Parsing.finish e) = []
rows_of id now (Parsing.emit batch next) =
    on_stamped (stamp_batch id now batch) (rows_of id now (next none))

abbrev pub rows_found : String → Time → Result (Parser × Name × Decoder) → List Reading
rows_found id now (err e) = []
rows_found id now (ok (parser, root, d)) = rows_of id now (parser d root)

-- A run went from the journal `before` to that of its state by a first part of `rows`, and by all of
-- them if it returns nil.
abbrev pub Extends :
    {W : Type 0} → List Reading → List Reading → Option GoError × (ℕ × (W × List Reading)) → Type 0
Extends before rows (result, (n, (w, after))) =
    (new : List Reading) × (rest : List Reading) × (after ≡ before ++ new)
    × (rows ≡ new ++ rest)
    × (result ≡ none → rest ≡ [])

module _ {W : Type 0} (sink : Sink W) (id : String) (now : Time) where
  abbrev Journaled : Type 0
  Journaled = ℕ × (W × List Reading)

  -- Nothing was written.
  nothing_new :
      (before rows : List Reading) (e : GoError) (n : ℕ) (w : W)
      → Extends before rows (some e, (n, (w, before)))
  nothing_new before rows e n w = ([], rows, sym (append-nil before), refl, λ h. cc)

  -- A batch of rows was written, and then what is behind it.
  batch_first :
      (before rows rest : List Reading) (r : Option GoError × Journaled)
      → Extends (before ++ rows) rest r
      → Extends before (rows ++ rest) r
  batch_first before rows rest (result, (n, (w, after))) (new, left, grown, split, all) = (
    rows ++ new,
    left,
    grown ∙ append_assoc before rows new,
    ap (λ xs. rows ++ xs) split ∙ sym (append_assoc rows new left),
    all,
  )

  module _ (next : Option GoError → Parsing)
      (stop : (e : GoError) → next (some e) ≡ Parsing.finish (some e))
      (later : (s : Journaled)
        → Extends s.1.1
            (rows_of id now (next none))
            (run_parsing (next none) (on_batch (journal sink) id now) s)) where
    abbrev Goes : List Reading → List Reading → Option GoError × Journaled → Type 0
    Goes before rows (e, s) =
        Extends before rows (run_parsing (next e) (on_batch (journal sink) id now) s)

    count_rows-Goes :
        (stored : ℕ) (before rows : List Reading) (written : Option GoError × W)
        → Goes before
            (rows ++ rows_of id now (next none))
            (count_rows stored rows (journal_write sink before rows written))
    unfolding run_parsing
    count_rows-Goes stored before rows (some e, w) =
        rw (stop e) (nothing_new before (rows ++ rows_of id now (next none)) e stored w)
    count_rows-Goes stored before rows (none, w) =
        let s : Journaled = (stored + length rows, (w, before ++ rows)) in
        batch_first before rows (rows_of id now (next none))
          (run_parsing (next none) (on_batch (journal sink) id now) s) (later s)

    write_rows-Goes :
        (stamped : Result (List Reading)) (s : Journaled)
        → Goes s.1.1
            (on_stamped stamped (rows_of id now (next none)))
            (write_rows (journal sink) stamped s)
    unfolding run_parsing
    write_rows-Goes (err e) (n, (w, before)) = rw (stop e) (nothing_new before [] e n w)
    write_rows-Goes (ok rows) (n, (w, before)) = count_rows-Goes n before rows (sink rows w)

  run_parsing-Extends :
      {p : Parsing}
      → StopsOnError p
      → (s : Journaled)
      → Extends s.1.1 (rows_of id now p) (run_parsing p (on_batch (journal sink) id now) s)
  unfolding run_parsing on_batch
  run_parsing-Extends (StopsOnError.finish e) (n, (w, before)) =
      ([], [], sym (append-nil before), refl, λ h. refl)
  run_parsing-Extends (StopsOnError.emit batch next stop rest) s =
      write_rows-Goes next stop (run_parsing-Extends rest) (stamp_batch id now batch) s

  parse_document-Extends :
      (found : Result (Parser × Name × Decoder)) (w : W)
      → OnFound StopsOnError found
      → Extends [] (rows_found id now found) (parse_document (journal sink) id now found (w, []))
  parse_document-Extends (err e) w h = ([], [], refl, refl, λ k. refl)
  parse_document-Extends (ok (parser, root, d)) w h = run_parsing-Extends h (0, (w, []))

-- The rows that Ingest stores of a message, if nothing fails.
abbrev pub document_rows : (List ℕ → Decoder) → Registry → Time → Delivery → List Reading
document_rows open_document registry now msg =
    rows_found msg.id (utc now) (for_document registry (open_document msg.payload))

-- With parsers that stop at the first error of `emit`, Ingest has stored a first part of the rows of
-- the document, whatever the sink does, and all of them if it returns nil.
pub ingest-Extends :
    {W : Type 0} (open_document : List ℕ → Decoder) (registry : Registry) (sink : Sink W)
    (now : Time) (msg : Delivery) (w : W)
    → AllParsers StopsOnError registry
    → Extends []
        (document_rows open_document registry now msg)
        (ingest open_document registry (journal sink) now msg (w, []))
unfolding ingest
ingest-Extends open_document registry sink now msg w h =
    let d = open_document msg.payload in
    parse_document-Extends sink msg.id (utc now) (for_document registry d) w
      (for_document-AllParsers StopsOnError registry d h)

-- The same row, ingested at another time.
abbrev pub restamp : Time → Reading → Reading
restamp now r = record r { ingested_at = now }

module _ (id : String) (first now : Time) where
  abbrev restamped : Result (List Reading) → Result (List Reading)
  restamped (err e) = err e
  restamped (ok rows) = ok (map (restamp now) rows)

  keep_if_valid-restamp :
      (r : Reading) (e : Option GoError) (rest : Result (List Reading))
      → keep_if_valid (stamp id now r) e (restamped rest)
        ≡ restamped (keep_if_valid (stamp id first r) e rest)
  keep_if_valid-restamp r (some e) rest = refl
  keep_if_valid-restamp r none (ok rows) = refl
  keep_if_valid-restamp r none (err e) = refl

  -- No rule reads the time of the ingestion.
  stamp_batch-restamp :
      (batch : List Reading) → stamp_batch id now batch ≡ restamped (stamp_batch id first batch)
  unfolding stamp_batch validate
  stamp_batch-restamp [] = refl
  stamp_batch-restamp (r ∷ batch) =
      ap (keep_if_valid (stamp id now r) (validate (stamp id now r))) (stamp_batch-restamp batch)
      ∙ keep_if_valid-restamp r (validate (stamp id first r)) (stamp_batch id first batch)

  on_stamped-restamp :
      (stamped : Result (List Reading)) (rest : List Reading)
      → on_stamped (restamped stamped) (map (restamp now) rest)
        ≡ map (restamp now) (on_stamped stamped rest)
  on_stamped-restamp (err e) rest = refl
  on_stamped-restamp (ok rows) rest = sym (map-append (restamp now) rows rest)

  rows_of-restamp : (p : Parsing) → rows_of id now p ≡ map (restamp now) (rows_of id first p)
  rows_of-restamp (Parsing.finish e) = refl
  rows_of-restamp (Parsing.emit batch next) =
      rw (stamp_batch-restamp batch, rows_of-restamp (next none))
        (on_stamped-restamp (stamp_batch id first batch) (rows_of id first (next none)))

  pub rows_found-restamp :
      (found : Result (Parser × Name × Decoder))
      → rows_found id now found ≡ map (restamp now) (rows_found id first found)
  rows_found-restamp (err e) = refl
  rows_found-restamp (ok (parser, root, d)) = rows_of-restamp (parser d root)
