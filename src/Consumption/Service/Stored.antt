-- ===== src/Consumption/Service/Stored.antt =====
-- What Ingest has stored when it returns, with or without an error.
use experiment_go.Prelude.{
  ℕ, ◌≡◌, refl, String, Option, none, some, List, [], ◌∷◌, ◌++◌, arith, length, length-append, All,
  All-append,
}
use experiment_go.Prelude.Errors.{GoError, Result, ok, err}
use experiment_go.Consumption.{
  Time, utc, Reading, validate, Delivery, Parsing, finish, emit, run_parsing, Parser, Sink,
}
use experiment_go.Consumption.Xml.{Name, Decoder}
use experiment_go.Consumption.Validation.{IsValid, validate_iff}
use experiment_go.Consumption.Registry.{Registry, for_document}
use experiment_go.Consumption.Service.{
  stamp, keep_if_valid, stamp_batch, count_rows, write_rows, on_batch, parse_document, ingest,
}

-- What `emit` keeps, a run of a parser keeps.
pub run_parsing_inv {ℓ κ} :
    {S : Type ℓ} (P : S → Type κ) (f : List Reading → S → Option GoError × S)
    → ((batch : List Reading) (s : S) → P s → P (f batch s).1)
    → (p : Parsing) (s : S) → P s
    → P (run_parsing p f s).1
unfolding run_parsing
run_parsing_inv P f keep (finish e) s h = h
run_parsing_inv P f keep (emit batch next) s h =
    run_parsing_inv P f keep (next (f batch s).0) (f batch s).1 (keep batch s h)

-- A row as Ingest stores it: it satisfies the domain rules, and carries the id of the message and
-- the time of the ingestion.
pub record IsStamped (id : String) (now : Time) (r : Reading) : Type 0 where
  pub rules : IsValid r
  pub from : r.source_message_id ≡ id
  pub at : r.ingested_at ≡ now

-- What holds of the rows, if there is no error.
abbrev pub OnRows : (List Reading → Type 0) → Result (List Reading) → Type 0
OnRows P (ok rows) = P rows
OnRows P (err e) = Unit

module _ (id : String) (now : Time) where
  keep_if_valid-IsStamped :
      (r : Reading) (v : Option GoError) (rest : Result (List Reading))
      → (v ≡ none → IsStamped id now r)
      → OnRows (All (IsStamped id now)) rest
      → OnRows (All (IsStamped id now)) (keep_if_valid r v rest)
  keep_if_valid-IsStamped r (some e) rest h k = tt
  keep_if_valid-IsStamped r none (ok rows) h k = (h refl, k)
  keep_if_valid-IsStamped r none (err e) h k = tt

  pub stamp_batch-IsStamped :
      (batch : List Reading) → OnRows (All (IsStamped id now)) (stamp_batch id now batch)
  unfolding stamp_batch
  stamp_batch-IsStamped [] = tt
  stamp_batch-IsStamped (r ∷ batch) =
      keep_if_valid-IsStamped (stamp id now r) (validate (stamp id now r))
        (stamp_batch id now batch)
        (λ e. record { rules = (validate_iff (stamp id now r)).0 e; from = refl; at = refl })
        (stamp_batch-IsStamped batch)

-- A sink that also keeps the rows of every write that succeeded.
module _ {W : Type 0} (sink : Sink W) where
  abbrev pub journal_write :
      List Reading → List Reading → Option GoError × W → Option GoError × (W × List Reading)
  journal_write log rows (none, w) = (none, (w, log ++ rows))
  journal_write log rows (some e, w) = (some e, (w, log))

  abbrev pub journal : Sink (W × List Reading)
  journal rows (w, log) = journal_write log rows (sink rows w)

  module _ (id : String) (now : Time) where
    -- The count is that of the journal, and every row of the journal is stamped.
    abbrev pub IsCounted : ℕ × (W × List Reading) → Type 0
    IsCounted (stored, (w, log)) = (stored ≡ length log) × All (IsStamped id now) log

    count_rows-IsCounted :
        (stored : ℕ) (log rows : List Reading) (written : Option GoError × W)
        → IsCounted (stored, (written.1, log))
        → All (IsStamped id now) rows
        → IsCounted (count_rows stored rows (journal_write log rows written)).1
    count_rows-IsCounted stored log rows (none, w) h k = (
      omega (arith, h.0, length-append {0} log rows),
      All-append (IsStamped id now) log rows h.1 k,
    )
    count_rows-IsCounted stored log rows (some e, w) h k = h

    write_rows-IsCounted :
        (res : Result (List Reading)) (s : ℕ × (W × List Reading))
        → OnRows (All (IsStamped id now)) res
        → IsCounted s
        → IsCounted (write_rows journal res s).1
    write_rows-IsCounted (err e) s k h = h
    write_rows-IsCounted (ok rows) (stored, (w, log)) k h =
        count_rows-IsCounted stored log rows (sink rows w) h k

    on_batch-IsCounted :
        (batch : List Reading) (s : ℕ × (W × List Reading))
        → IsCounted s
        → IsCounted (on_batch journal id now batch s).1
    unfolding on_batch
    on_batch-IsCounted batch s h =
        write_rows-IsCounted (stamp_batch id now batch) s (stamp_batch-IsStamped id now batch) h

    parse_document-IsCounted :
        (found : Result (Parser × Name × Decoder)) (w : W)
        → IsCounted (parse_document journal id now found (w, [])).1
    parse_document-IsCounted (err e) w = (refl, tt)
    parse_document-IsCounted (ok (parser, root, d)) w =
        run_parsing_inv IsCounted (on_batch journal id now) on_batch-IsCounted (parser d root)
          (0, (w, [])) (refl, tt)

-- Whether Ingest returns an error or not, the count it returns is the number of rows that the sink
-- has accepted, and every accepted row satisfies the domain rules and carries the message's id and
-- the time of ingestion in UTC. This holds of every registered parser and every sink.
pub ingest-IsCounted :
    {W : Type 0} (open_document : List ℕ → Decoder) (registry : Registry) (sink : Sink W)
    (now : Time) (msg : Delivery) (w : W)
    → IsCounted sink msg.id
        (utc now)
        (ingest open_document registry (journal sink) now msg (w, [])).1
unfolding ingest
ingest-IsCounted open_document registry sink now msg w =
    parse_document-IsCounted sink msg.id (utc now)
      (for_document registry (open_document msg.payload)) w
