-- ===== src/BqSink/Opening.antt =====
-- New and Close of internal/consumption/bqsink/sink.go. The client managedwriter and the package
-- adapt are the parameter `SinkLibrary`: `S`, `A`, `M` and `P` are a storage schema, a descriptor, a
-- message descriptor, and its normal form.
use experiment_go.Prelude.{String, Option, none, some, List, [], ◌∷◌}
use experiment_go.Prelude.Errors.{GoError, Result, ok, err, lit, str, plain_error, wrap_error}
use experiment_go.BqSink.{join_close_errors}
use experiment_go.BqSink.Schema.{Column, table_schema}

-- Config
pub record Target : Type 0 where
  pub project : String
  pub dataset : String
  pub table : String

pub record SinkLibrary (W S A M P : Type 0) : Type 0 where
  pub new_client : String → W → Option GoError × W
  pub convert_schema : List Column → Result S
  pub build_descriptor : S → String → Result A
  pub as_message : A → Option M
  pub type_name : A → String
  pub normalise : M → Result P
  pub new_stream : Target → P → W → Option GoError × W
  pub close_stream : W → Option GoError × W
  pub close_client : W → Option GoError × W

module _ {W S A M P : Type 0} (lib : SinkLibrary W S A M P) where
  -- The descriptor that the rows are encoded by, and the one for the stream.
  abbrev normalised : M → Result P → Result (M × P)
  normalised m (err e) = err (wrap_error (lit "bqsink: normalising descriptor" ∷ []) e)
  normalised m (ok p) = ok (m, p)

  abbrev message_descriptor : A → Option M → Result (M × P)
  message_descriptor a none = err (
      plain_error (
        lit "bqsink: descriptor is "
        ∷ str (lib.type_name a)
        ∷ lit ", want a message descriptor"
        ∷ []))
  message_descriptor a (some m) = normalised m (lib.normalise m)

  abbrev described : Result A → Result (M × P)
  described (err e) = err (wrap_error (lit "bqsink: building descriptor" ∷ []) e)
  described (ok a) = message_descriptor a (lib.as_message a)

  abbrev converted : Result S → Result (M × P)
  converted (err e) = err (wrap_error (lit "bqsink: converting schema" ∷ []) e)
  converted (ok s) = described (lib.build_descriptor s "readings")

  -- On an error the client is closed, whatever comes of it.
  abbrev pub abandon : GoError → W → Result M × W
  abandon e w = (err e, (lib.close_client w).1)

  abbrev pub streamed : M → Option GoError × W → Result M × W
  streamed m (none, w) = (ok m, w)
  streamed m (some e, w) = abandon (wrap_error (lit "bqsink: opening stream" ∷ []) e) w

  abbrev pub with_descriptor : Target → Result (M × P) → W → Result M × W
  with_descriptor target (err e) w = abandon e w
  with_descriptor target (ok (m, p)) w = streamed m (lib.new_stream target p w)

  abbrev pub with_client : Target → Option GoError × W → Result M × W
  with_client target (some e, w) = (err (wrap_error (lit "bqsink: new client" ∷ []) e), w)
  with_client target (none, w) =
      with_descriptor target (converted (lib.convert_schema table_schema)) w

  -- New: with no error, the client and the stream are open.
  unfoldable pub new_sink : Target → W → Result M × W
  unfolding table_schema
  new_sink target w = with_client target (lib.new_client target.project w)

  abbrev pub client_closed : Option GoError → Option GoError × W → Option GoError × W
  client_closed stream_err (client_err, w) = (join_close_errors stream_err client_err, w)

  abbrev pub stream_closed : Option GoError × W → Option GoError × W
  stream_closed (stream_err, w) = client_closed stream_err (lib.close_client w)

  -- Sink.Close
  unfoldable pub close_sink : W → Option GoError × W
  unfolding join_close_errors
  close_sink w = stream_closed (lib.close_stream w)
