-- ===== src/BqSink/Outages.antt =====
-- Writes against the outcomes of the calls of the BigQuery client: a write whose error asks for a
-- retry ended with a call that failed with a code of failures that pass.
use experiment_go.Prelude.{
  ℕ, ◌≡◌, refl, String, Option, none, some, List, [], ◌∷◌, true, false, arith,
}
use experiment_go.Prelude.Errors.{GoError, Result, ok, err, is_error, transient}
use experiment_go.Consumption.{Reading}
use experiment_go.BqSink.Schema.{Value, reading_to_values}
use experiment_go.BqSink.{
  ClientError, Stream, marshalled, missing_field, encoded_if, encode_row, with_row, encode_rows,
  classified, on_append, on_rows, write,
}
use experiment_go.BqSink.Laws.{Passes, classify-transient_iff}

-- The outcomes of the calls of AppendRows and GetResult, the newest first.
abbrev pub Calls : Type 0
Calls = List (Option ClientError)

-- The newest call failed with a code of failures that pass.
abbrev pub NewestPasses : Calls → Type 0
NewestPasses [] = ⊥
NewestPasses (none ∷ calls) = ⊥
NewestPasses (some e ∷ calls) = Passes e.code

-- An error that the program has not marked itself.
abbrev Unmarked : Option ClientError → Type 0
Unmarked none = Unit
Unmarked (some e) = is_error e.error transient ≡ false

abbrev Permanent {ℓ} : {B : Type ℓ} → Result B → Type 0
Permanent (ok b) = Unit
Permanent (err e) = is_error e transient ≡ false

-- The libraries know nothing of the program's ErrTransient.
pub record IsForeign {W A : Type 0} (stream : Stream W A) : Type 0 where
  pub on_marshal : (values : List (String × Value)) → Permanent (stream.marshal values)
  pub on_append : (rows : List (List ℕ)) (w : W) → Unmarked (stream.append_rows rows w).0.0
  pub on_result : (result : A) (w : W) → Unmarked (stream.get_result result w).0

module _ {W A : Type 0} (stream : Stream W A) where
  abbrev note_append : Calls → (Option ClientError × A) × W → (Option ClientError × A) × (W × Calls)
  note_append calls ((e, result), w) = ((e, result), (w, e ∷ calls))

  abbrev note_result : Calls → Option ClientError × W → Option ClientError × (W × Calls)
  note_result calls (e, w) = (e, (w, e ∷ calls))

  abbrev append_noting : List (List ℕ) → W × Calls → (Option ClientError × A) × (W × Calls)
  append_noting rows (w, calls) = note_append calls (stream.append_rows rows w)

  abbrev result_noting : A → W × Calls → Option ClientError × (W × Calls)
  result_noting result (w, calls) = note_result calls (stream.get_result result w)

  -- The stream with a list of the outcomes of its calls.
  abbrev pub noting : Stream (W × Calls) A
  noting = record {
    has_field = stream.has_field;
    marshal = stream.marshal;
    append_rows = append_noting;
    get_result = result_noting;
  }

  -- If the error asks for a retry, the newest call failed with such a code.
  abbrev pub Explains : Option GoError → Calls → Type 0
  Explains none calls = Unit
  Explains (some e) calls = is_error e transient ≡ true → NewestPasses calls

  module _ (foreign : IsForeign stream) where
    missing_field-permanent :
        (values : List (String × Value)) (e : GoError)
        → missing_field noting values ≡ some e
        → is_error e transient ≡ false
    missing_field-permanent [] e h = cc
    missing_field-permanent ((name, value) ∷ values) e h =
        ground (arith, missing_field-permanent values e)

    marshalled-Permanent : (r : Result (List ℕ)) → Permanent r → Permanent (marshalled noting r)
    marshalled-Permanent (ok row) h = tt
    marshalled-Permanent (err e) h = h

    encoded_if-Permanent :
        (missing : Option GoError) (values : List (String × Value))
        → ((e : GoError) → missing ≡ some e → is_error e transient ≡ false)
        → Permanent (encoded_if noting missing values)
    encoded_if-Permanent (some e) values h = h e refl
    encoded_if-Permanent none values h =
        marshalled-Permanent (stream.marshal values) (foreign.on_marshal values)

    with_row-Permanent :
        (one : Result (List ℕ)) (rest : Result (List (List ℕ)))
        → Permanent one
        → Permanent rest
        → Permanent (with_row noting one rest)
    with_row-Permanent (err e) rest h k = h
    with_row-Permanent (ok row) (err e) h k = k
    with_row-Permanent (ok row) (ok rows) h k = tt

    encode_rows-Permanent : (readings : List Reading) → Permanent (encode_rows noting readings)
    unfolding encode_rows encode_row
    encode_rows-Permanent [] = tt
    encode_rows-Permanent (r ∷ readings) =
        let values = reading_to_values r in
        with_row-Permanent (encode_row noting r) (encode_rows noting readings)
          (encoded_if-Permanent (missing_field noting values) values
            (missing_field-permanent values))
          (encode_rows-Permanent readings)

    abbrev Explained : Option GoError × (W × Calls) → Type 0
    Explained (e, (w, calls)) = Explains e calls

    note_result-Explained :
        (calls : Calls) (r : Option ClientError × W)
        → Unmarked r.0
        → Explained (classified noting (note_result calls r))
    note_result-Explained calls (none, w) h = tt
    note_result-Explained calls (some e, w) h = (classify-transient_iff e h).0

    note_append-Explained :
        (calls : Calls) (r : (Option ClientError × A) × W)
        → Unmarked r.0.0
        → Explained (on_append noting (note_append calls r))
    note_append-Explained calls ((some e, result), w) h = (classify-transient_iff e h).0
    note_append-Explained calls ((none, result), w) h =
        note_result-Explained (none ∷ calls) (stream.get_result result w)
          (foreign.on_result result w)

    on_rows-Explained :
        (rows : Result (List (List ℕ))) (w : W) (calls : Calls)
        → Permanent rows
        → Explained (on_rows noting rows (w, calls))
    on_rows-Explained (err e) w calls h = λ retry. ground arith
    on_rows-Explained (ok rows) w calls h =
        note_append-Explained calls (stream.append_rows rows w) (foreign.on_append rows w)

    pub write-Explains :
        (readings : List Reading) (s : W × Calls)
        → Explains (write noting readings s).0 (write noting readings s).1.1
    unfolding write
    write-Explains [] s = tt
    write-Explains (r ∷ readings) (w, calls) =
        on_rows-Explained (encode_rows noting (r ∷ readings)) w calls
          (encode_rows-Permanent (r ∷ readings))
