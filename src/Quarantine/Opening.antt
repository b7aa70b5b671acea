-- ===== src/Quarantine/Opening.antt =====
-- NewGCS and Close of internal/consumption/quarantine/gcs.go, over the client library.
use experiment_go.Prelude.{Option, [], ◌∷◌}
use experiment_go.Prelude.Errors.{GoError, lit, wrap_if}

pub record GcsLibrary (W : Type 0) : Type 0 where
  pub new_client : W → Option GoError × W
  pub close_client : W → Option GoError × W

module _ {W : Type 0} (lib : GcsLibrary W) where
  abbrev pub client_made : Option GoError × W → Option GoError × W
  client_made (e, w) = (wrap_if (lit "quarantine: new client" ∷ []) e, w)

  -- NewGCS: with no error, the client is open.
  unfoldable pub new_gcs : W → Option GoError × W
  new_gcs w = client_made (lib.new_client w)

  abbrev client_closed : Option GoError × W → Option GoError × W
  client_closed (e, w) = (wrap_if (lit "quarantine: closing client" ∷ []) e, w)

  -- GCS.Close
  unfoldable pub close_gcs : W → Option GoError × W
  close_gcs w = client_closed (lib.close_client w)
