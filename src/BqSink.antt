-- ===== src/BqSink.antt =====
-- internal/consumption/bqsink/sink.go: the sink over BigQuery. The table's descriptor, proto.Marshal
-- and the client are the parameter `Stream`. New and Close stand in BqSink/Opening.
pub mod Laws
pub mod Schema
pub mod Opening
pub mod Accepted
pub mod Outages
use experiment_go.Prelude.{ℕ, String, Bool, if◌then◌else◌, Option, none, some, List, [], ◌∷◌, ◌++◌}
use experiment_go.Prelude.Errors.{
  GoError, Message, Result, ok, err, lit, quoted, plain_error, transient, wrap_both, wrap_error,
  wrap_if, join_errors,
}
use experiment_go.Consumption.{Reading, Sink}
use experiment_go.BqSink.Schema.{Value, reading_to_values}

-- The codes of google.golang.org/grpc/codes.
pub data Code : Type 0 where
  ok_code canceled unknown invalid_argument deadline_exceeded code_not_found already_exists : Code
  permission_denied resource_exhausted failed_precondition aborted out_of_range : Code
  unimplemented internal unavailable data_loss unauthenticated : Code

-- An error of the client, with the code that status.Code finds in it.
pub record ClientError : Type 0 where
  pub code : Code
  pub error : GoError

abbrev permanent_error : GoError → GoError
permanent_error e = wrap_error (lit "bigquery append" ∷ []) e

abbrev transient_error : GoError → GoError
transient_error e = wrap_both transient (lit "bigquery append" ∷ []) e

-- classify, of an error that is not nil
unfoldable pub classify : ClientError → GoError
classify e = elim e.code [
  | unavailable ↦ transient_error e.error
  | deadline_exceeded ↦ transient_error e.error
  | resource_exhausted ↦ transient_error e.error
  | internal ↦ transient_error e.error
  | canceled ↦ transient_error e.error
  | _ ↦ permanent_error e.error
]

-- What Write calls: ByTextName of the table's descriptor, proto.Marshal of a message with its fields,
-- AppendRows, and GetResult of a result `A`, which waits until BigQuery has accepted the rows.
pub record Stream (W A : Type 0) : Type 0 where
  pub has_field : String → Bool
  pub marshal : List (String × Value) → Result (List ℕ)
  pub append_rows : List (List ℕ) → W → (Option ClientError × A) × W
  pub get_result : A → W → Option ClientError × W

module _ {W A : Type 0} (stream : Stream W A) where
  -- The loop over the values of one reading, in the order of the columns.
  abbrev pub missing_field : List (String × Value) → Option GoError
  missing_field [] = none
  missing_field ((name, value) ∷ values) =
      if stream.has_field name
      then missing_field values
      else some (
          plain_error (lit "bqsink: no field " ∷ quoted name ∷ lit " in the table descriptor" ∷ []))

  abbrev pub marshalled : Result (List ℕ) → Result (List ℕ)
  marshalled (ok row) = ok row
  marshalled (err e) = err (wrap_error (lit "bqsink: encoding row" ∷ []) e)

  abbrev encoded_if : Option GoError → List (String × Value) → Result (List ℕ)
  encoded_if (some e) values = err e
  encoded_if none values = marshalled (stream.marshal values)

  unfoldable pub encode_row : Reading → Result (List ℕ)
  unfolding reading_to_values
  encode_row r = encoded_if (missing_field (reading_to_values r)) (reading_to_values r)

  abbrev pub prepend_row : List ℕ → Result (List (List ℕ)) → Result (List (List ℕ))
  prepend_row row (ok rows) = ok (row ∷ rows)
  prepend_row row (err e) = err e

  abbrev pub with_row : Result (List ℕ) → Result (List (List ℕ)) → Result (List (List ℕ))
  with_row (err e) rest = err e
  with_row (ok row) rest = prepend_row row rest

  -- The loop that encodes the rows; it stops at the first error.
  unfoldable pub encode_rows : List Reading → Result (List (List ℕ))
  unfolding encode_row
  encode_rows [] = ok []
  encode_rows (r ∷ readings) = with_row (encode_row r) (encode_rows readings)

  abbrev pub classified : Option ClientError × W → Option GoError × W
  classified (none, w) = (none, w)
  classified (some e, w) = (some (classify e), w)

  abbrev pub on_append : (Option ClientError × A) × W → Option GoError × W
  on_append ((some e, result), w) = (some (classify e), w)
  on_append ((none, result), w) = classified (stream.get_result result w)

  abbrev pub on_rows : Result (List (List ℕ)) → W → Option GoError × W
  on_rows (err e) w = (some e, w)
  on_rows (ok rows) w = on_append (stream.append_rows rows w)

  -- Sink.Write
  unfoldable pub write : Sink W
  unfolding encode_rows classify
  write [] w = (none, w)
  write (r ∷ readings) w = on_rows (encode_rows (r ∷ readings)) w

-- joinCloseErrors
unfoldable pub join_close_errors : Option GoError → Option GoError → Option GoError
join_close_errors stream_err client_err =
    join_errors (wrap_if (lit "bqsink: closing stream" ∷ []) stream_err)
      (wrap_if (lit "bqsink: closing client" ∷ []) client_err)
