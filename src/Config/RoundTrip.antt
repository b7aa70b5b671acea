-- ===== src/Config/RoundTrip.antt =====
-- Every setting is read from its own variable: an environment that writes a configuration down is
-- loaded as that configuration.
use experiment_go.Prelude.{
  ◌≡◌, ◌≢◌, refl, String, Bool, true, false, none, some, List, [], ◌∷◌, ◌==◌, eq_iff, if◌then◌else◌,
  Bool-cases, inl, inr,
}
use experiment_go.Prelude.Int.{ℤ, pos, IsInt64}
use experiment_go.Prelude.Text.{parse_bool}
use experiment_go.Prelude.Text.Decimal.{format_int, parse_int-format_int64, format_int-ne-nil}
use experiment_go.Config.{
  Environment, Library, env, env_int, env_bool, env_duration, dsn, Config, validate, load, seconds,
  set_value,
}

-- The environment of a list of variables.
abbrev pub variables : List (String × String) → Environment
variables [] key = none
variables ((name, value) ∷ rest) key = if name == key then some value else variables rest key

abbrev pub bool_text : Bool → String
bool_text true = "true"
bool_text false = "false"

-- A configuration as variables. `duration_text` is how durations are written.
abbrev pub as_variables : (ℤ → String) → Config → List (String × String)
as_variables duration_text c =
    ("APP_ENV", c.env)
    ∷ ("HTTP_HOST", c.http.host)
    ∷ ("HTTP_PORT", format_int c.http.port)
    ∷ ("HTTP_READ_TIMEOUT", duration_text c.http.read_timeout)
    ∷ ("HTTP_WRITE_TIMEOUT", duration_text c.http.write_timeout)
    ∷ ("HTTP_IDLE_TIMEOUT", duration_text c.http.idle_timeout)
    ∷ ("HTTP_SHUTDOWN_TIMEOUT", duration_text c.http.shutdown_timeout)
    ∷ ("DATABASE_URL", c.db.dsn)
    ∷ ("DB_MAX_CONNS", format_int c.db.max_conns)
    ∷ ("DB_MIN_CONNS", format_int c.db.min_conns)
    ∷ ("DB_MAX_CONN_LIFETIME", duration_text c.db.max_conn_lifetime)
    ∷ ("DB_CONNECT_TIMEOUT", duration_text c.db.connect_timeout)
    ∷ ("LOG_LEVEL", c.logger.level)
    ∷ ("LOG_FORMAT", c.logger.format)
    ∷ ("MIGRATE_ON_START", bool_text c.migrate_on_start)
    ∷ ("ENABLE_BURN_ENDPOINT", bool_text c.burn_endpoint)
    ∷ ("ENABLE_INGEST_ENDPOINT", bool_text c.ingest.enabled)
    ∷ ("PUBSUB_AUDIENCE", c.ingest.audience)
    ∷ ("PUBSUB_PUSH_SERVICE_ACCOUNT", c.ingest.push_service_account)
    ∷ ("BQ_PROJECT", c.ingest.bq_project)
    ∷ ("BQ_DATASET", c.ingest.bq_dataset)
    ∷ ("BQ_TABLE", c.ingest.bq_table)
    ∷ ("QUARANTINE_BUCKET", c.ingest.quarantine_bucket)
    ∷ ("INGEST_BATCH_ROWS", format_int c.ingest.batch_rows)
    ∷ []

-- What variables can say: the settings with a default of their own are not empty, and integers fit an
-- int64.
pub record IsWritable (c : Config) : Type 0 where
  pub env : ◌≢◌ {A = String} c.env ""
  pub host : ◌≢◌ {A = String} c.http.host ""
  pub level : ◌≢◌ {A = String} c.logger.level ""
  pub format : ◌≢◌ {A = String} c.logger.format ""
  pub bq_table : ◌≢◌ {A = String} c.ingest.bq_table ""
  pub port : IsInt64 c.http.port
  pub max_conns : IsInt64 c.db.max_conns
  pub min_conns : IsInt64 c.db.min_conns
  pub batch_rows : IsInt64 c.ingest.batch_rows
  pub read_timeout : IsInt64 c.http.read_timeout
  pub write_timeout : IsInt64 c.http.write_timeout
  pub idle_timeout : IsInt64 c.http.idle_timeout
  pub shutdown_timeout : IsInt64 c.http.shutdown_timeout
  pub max_conn_lifetime : IsInt64 c.db.max_conn_lifetime
  pub connect_timeout : IsInt64 c.db.connect_timeout

-- The text of a duration, an int64 of nanoseconds, can be read back.
pub record IsReadable (lib : Library) (duration_text : ℤ → String) : Type 0 where
  pub stated : (d : ℤ) → ◌≢◌ {A = String} (duration_text d) ""
  pub parsed : (d : ℤ) → IsInt64 d → lib.parse_duration (duration_text d) ≡ some d

set_value-text : (v : String) → ◌≢◌ {A = String} v "" → set_value (some v) ≡ some v
set_value-text v h = elim (Bool-cases (v == "")) [
  | inl e ↦ absurd (h ((eq_iff v "").0 e))
  | inr e ↦ rw e refl
]

module _ (environment : Environment) (key : String) where
  env-text :
      (fallback v : String)
      → environment key ≡ some v
      → ◌≢◌ {A = String} v ""
      → env environment key fallback ≡ v
  unfolding env
  env-text fallback v h stated = rw (h, set_value-text v stated) refl

  -- An empty text is the same as none at all, where the default is empty.
  env-empty : (v : String) → environment key ≡ some v → env environment key "" ≡ v
  unfolding env
  env-empty v h = elim (Bool-cases (v == "")) [
    | inl e ↦ let empty : v ≡ "" = (eq_iff v "").0 e in rw (h, empty) refl
    | inr e ↦ rw (h, e) refl
  ]

  env_int-text :
      (fallback n : ℤ)
      → environment key ≡ some (format_int n)
      → IsInt64 n
      → env_int environment key fallback ≡ n
  unfolding env_int
  env_int-text fallback n h fits =
      rw (h, set_value-text (format_int n) (format_int-ne-nil n), parse_int-format_int64 n fits)
        refl

  env_bool-text :
      (fallback b : Bool)
      → environment key ≡ some (bool_text b)
      → env_bool environment key fallback ≡ b
  unfolding env_bool parse_bool
  env_bool-text fallback true h = rw h refl
  env_bool-text fallback false h = rw h refl

  env_duration-text :
      (lib : Library) (duration_text : ℤ → String) (fallback d : ℤ)
      → IsReadable lib duration_text
      → environment key ≡ some (duration_text d)
      → IsInt64 d
      → env_duration environment lib key fallback ≡ d
  unfolding env_duration
  env_duration-text lib duration_text fallback d readable h fits =
      rw (h, set_value-text (duration_text d) (readable.stated d), readable.parsed d fits) refl

dsn-text :
    (environment : Environment) (lib : Library) (v : String)
    → environment "DATABASE_URL" ≡ some v
    → environment "POSTGRES_HOST" ≡ none
    → dsn environment lib ≡ v
unfolding dsn env
dsn-text environment lib v h none_set = elim (Bool-cases (v == "")) [
  | inl e ↦ let empty : v ≡ "" = (eq_iff v "").0 e in rw (h, none_set, empty) refl
  | inr e ↦ rw (h, e) refl
]

module _ (lib : Library) (duration_text : ℤ → String) (readable : IsReadable lib duration_text)
    (c : Config) (h : IsWritable c) where
  abbrev environment : Environment
  environment = variables (as_variables duration_text c)

  -- Load reads every setting from its own variable: the environment that holds a configuration's
  -- settings under the documented names, each in its text, is loaded as exactly that configuration,
  -- with the verdict that `validate` has on it. The settings that have a default must not be empty,
  -- numbers and durations are int64, and ParseDuration reads back what the durations are written as.
  pub load-as_variables : load lib (variables (as_variables duration_text c)) ≡ (c, validate c)
  unfolding load
  load-as_variables =
      rw
        (
          env-text environment "APP_ENV" "development" c.env refl h.env,
          env-text environment "HTTP_HOST" "0.0.0.0" c.http.host refl h.host,
          env_int-text environment "HTTP_PORT" (pos 8080) c.http.port refl h.port,
          env_duration-text environment "HTTP_READ_TIMEOUT" lib duration_text (seconds 10)
              c.http.read_timeout readable refl h.read_timeout,
          env_duration-text environment "HTTP_WRITE_TIMEOUT" lib duration_text (seconds 15)
              c.http.write_timeout readable refl h.write_timeout,
          env_duration-text environment "HTTP_IDLE_TIMEOUT" lib duration_text (seconds 60)
              c.http.idle_timeout readable refl h.idle_timeout,
          env_duration-text environment "HTTP_SHUTDOWN_TIMEOUT" lib duration_text (seconds 15)
              c.http.shutdown_timeout readable refl h.shutdown_timeout,
          dsn-text environment lib c.db.dsn refl refl,
          env_int-text environment "DB_MAX_CONNS" (pos 10) c.db.max_conns refl h.max_conns,
          env_int-text environment "DB_MIN_CONNS" (pos 1) c.db.min_conns refl h.min_conns,
          env_duration-text environment "DB_MAX_CONN_LIFETIME" lib duration_text (seconds 3600)
              c.db.max_conn_lifetime readable refl h.max_conn_lifetime,
          env_duration-text environment "DB_CONNECT_TIMEOUT" lib duration_text (seconds 10)
              c.db.connect_timeout readable refl h.connect_timeout,
          env-text environment "LOG_LEVEL" "info" c.logger.level refl h.level,
          env-text environment "LOG_FORMAT" "json" c.logger.format refl h.format,
          env_bool-text environment "MIGRATE_ON_START" false c.migrate_on_start refl,
          env_bool-text environment "ENABLE_BURN_ENDPOINT" false c.burn_endpoint refl,
          env_bool-text environment "ENABLE_INGEST_ENDPOINT" false c.ingest.enabled refl,
          env-empty environment "PUBSUB_AUDIENCE" c.ingest.audience refl,
          env-empty environment "PUBSUB_PUSH_SERVICE_ACCOUNT" c.ingest.push_service_account refl,
          env-empty environment "BQ_PROJECT" c.ingest.bq_project refl,
          env-empty environment "BQ_DATASET" c.ingest.bq_dataset refl,
          env-empty environment "QUARANTINE_BUCKET" c.ingest.quarantine_bucket refl,
          env-text environment "BQ_TABLE" "readings" c.ingest.bq_table refl h.bq_table,
          env_int-text environment "INGEST_BATCH_ROWS" (pos 5000) c.ingest.batch_rows refl
              h.batch_rows,
        )
        refl
