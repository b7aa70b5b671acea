-- ===== src/Migrator.antt =====
-- internal/migrator/migrator.go. The library golang-migrate over the embedded migrations is the
-- parameter `Engine`, on a database `D`; the log is left out.
pub mod History
use experiment_go.Prelude.{
  ℕ, Bool, true, false, ◌||◌, ◌==◌, Option, none, some, List, [], ◌∷◌, String, if◌then◌else◌,
}
use experiment_go.Prelude.Int.{ℤ, pos, leb_ℤ, ◌-ℤ◌}
use experiment_go.Prelude.Text.{lower_is}
use experiment_go.Prelude.Errors.{
  GoError, Message, Result, ok, err, lit, num, quoted, is_error, no_change, nil_version,
  plain_error, wrap_error, wrap_if, join_errors,
}

-- The methods of migrate.Migrate that the package calls. Version gives a version and whether it is
-- dirty; Close gives the errors of the source and of the database.
pub record Engine (D : Type 0) : Type 0 where
  pub up : D → Option GoError × D
  pub down : D → Option GoError × D
  pub steps : ℤ → D → Option GoError × D
  pub version : D → Result (ℕ × Bool)
  pub force : ℤ → D → Option GoError × D
  pub close : D → (Option GoError × Option GoError) × D

-- net/url: a URL as far as it is changed, and its text.
pub record Url : Type 0 where
  pub scheme : String
  pub rest : String

pub record UrlLibrary : Type 0 where
  pub parse_url : String → Result Url
  pub url_text : Url → String

abbrev pub with_scheme : UrlLibrary → Url → Result String
with_scheme lib u =
    if lower_is u.scheme "postgres"
      || lower_is u.scheme "postgresql"
      || lower_is u.scheme "pgx"
      || lower_is u.scheme "pgx5"
    then ok (lib.url_text (record u { scheme = "pgx5" }))
    else if u.scheme == ""
    then err (plain_error (lit "database dsn has no scheme, expected postgres://" ∷ []))
    else err (
        plain_error (
          lit "unsupported database scheme " ∷ quoted u.scheme ∷ lit ", expected postgres://" ∷ []))

abbrev pub parsed_dsn : UrlLibrary → Result Url → Result String
parsed_dsn lib (err e) = err (wrap_error (lit "parse database dsn" ∷ []) e)
parsed_dsn lib (ok u) = with_scheme lib u

-- toMigrateDSN
unfoldable pub to_migrate_dsn : UrlLibrary → String → Result String
to_migrate_dsn lib dsn = parsed_dsn lib (lib.parse_url dsn)

module _ {D : Type 0} (m : Engine D) where
  -- What Up returns behind the migration: an error in reading the version is one, too.
  abbrev read_after : Result (ℕ × Bool) → Option GoError
  read_after (err e) = some (wrap_error (lit "read schema version" ∷ []) e)
  read_after (ok v) = none

  abbrev pub after_up : Option GoError × D → Option GoError × D
  after_up (none, d) = (read_after (m.version d), d)
  after_up (some e, d) =
      if is_error e no_change
      then (none, d)
      else (some (wrap_error (lit "apply migrations" ∷ []) e), d)

  -- Migrator.Up. The version before is only logged.
  unfoldable pub up : D → Option GoError × D
  up d = after_up (m.up d)

  abbrev pub unless_no_change : Message → Option GoError × D → Option GoError × D
  unless_no_change doing (none, d) = (none, d)
  unless_no_change doing (some e, d) =
      if is_error e no_change then (none, d) else (some (wrap_error doing e), d)

  -- Migrator.Down
  unfoldable pub down : ℤ → D → Option GoError × D
  down n d =
      if leb_ℤ n (pos 0)
      then unless_no_change (lit "roll back all migrations" ∷ []) (m.down d)
      else unless_no_change (lit "roll back " ∷ num n ∷ lit " migration(s)" ∷ [])
          (m.steps (pos 0 -ℤ n) d)

  abbrev version_read : Result (ℕ × Bool) → Result (Option (ℕ × Bool))
  version_read (ok v) = ok (some v)
  version_read (err e) =
      if is_error e nil_version
      then ok none
      else err (wrap_error (lit "read schema version" ∷ []) e)

  -- Migrator.Version: `ok none` is the result with ok=false.
  unfoldable pub version : D → Result (Option (ℕ × Bool))
  version d = version_read (m.version d)

  abbrev forced : ℤ → Option GoError × D → Option GoError × D
  forced n (e, d) = (wrap_if (lit "force version " ∷ num n ∷ []) e, d)

  -- Migrator.Force
  unfoldable pub force : ℤ → D → Option GoError × D
  force n d = forced n (m.force n d)

  abbrev joined : (Option GoError × Option GoError) × D → Option GoError × D
  joined ((src_err, db_err), d) = (join_errors src_err db_err, d)

  -- Migrator.Close
  unfoldable pub close : D → Option GoError × D
  close d = joined (m.close d)

-- What New calls: iofs.New on the embedded files, and migrate.NewWithSourceInstance on the rewritten
-- DSN, which gives the engine of a database and the world with its connection.
pub record Opening (D : Type 0) : Type 0 where
  pub urls : UrlLibrary
  pub embedded : Option GoError
  pub connect : String → D → Result (Engine D) × D

abbrev pub connected : {D : Type 0} → Result (Engine D) × D → Result (Engine D) × D
connected (err e, d) = (err (wrap_error (lit "init migrator" ∷ []) e), d)
connected (ok m, d) = (ok m, d)

abbrev pub with_dsn : {D : Type 0} → Opening D → Result String → D → Result (Engine D) × D
with_dsn opening (err e) d = (err e, d)
with_dsn opening (ok dsn) d = connected (opening.connect dsn d)

abbrev pub with_source :
    {D : Type 0} → Opening D → Option GoError → String → D → Result (Engine D) × D
with_source opening (some e) dsn d = (err (wrap_error (lit "open embedded migrations" ∷ []) e), d)
with_source opening none dsn d = with_dsn opening (to_migrate_dsn opening.urls dsn) d

-- New
unfoldable pub new_migrator : {D : Type 0} → Opening D → String → D → Result (Engine D) × D
unfolding to_migrate_dsn
new_migrator opening dsn d = with_source opening opening.embedded dsn d
