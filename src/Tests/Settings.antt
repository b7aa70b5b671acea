-- ===== src/Tests/Settings.antt =====
-- Readings, configurations and errors of the client.
use experiment_go.Prelude.{ℕ, suc, ◌+◌, ◌*◌, ◌^◌, ◌≤◌, ◌<◌, ◌≡◌, ◌↔◌, ◌⊎◌, refl, none, some, arith}
use experiment_go.Prelude.Int.{ℤ, pos, ◌≤ℤ◌}
use experiment_go.Consumption.{Reading}
use experiment_go.Consumption.Validation.{validate_iff}
use experiment_go.Config.{Library, Config, load}
use experiment_go.Config.Validity.{validate_settings_iff}
use experiment_go.Config.RoundTrip.{
  variables, as_variables, IsWritable, IsReadable, load-as_variables,
}
use text.Mathlib.TextLemmas.{cons-ne-nil}
use experiment_go.Prelude.Text.{parse_int}
use experiment_go.Prelude.Text.Decimal.{format_int, parse_int-format_int64, format_int-ne-nil}
use experiment_go.Database.{PoolConfig, pool_config}
use experiment_go.Database.Conns.{with_max_conns, max_conns_wrap}
use experiment_go.Prelude.Text.{lower_is}
use experiment_go.BqSink.Schema.{
  table_schema, MatchesSchema, reading_to_values, reading_to_values-MatchesSchema,
}
use experiment_go.HttpApi.Burn.{burn_duration, spin_rounds}
use experiment_go.HttpApi.Burn.Bounds.{EndsAt, burn_duration_bounds, spin_rounds-EndsAt}
use experiment_go.Tests.Ingestion.{row_of}

validate_iff_example :
    (experiment_go.Consumption.validate (row_of "m-1") ≡ none)
    ↔ experiment_go.Consumption.Validation.IsValid (row_of "m-1")
validate_iff_example = validate_iff (row_of "m-1")

abbrev pub go_library : Library
go_library = record {
  parse_duration = λ text. none;
  postgres_url = λ user password host port name mode. "postgres://db";
}

abbrev defaults : Config
unfolding load
defaults = (load go_library (λ key. none)).0

validate_settings_iff_example :
    (experiment_go.Config.validate defaults ≡ none) ↔ experiment_go.Config.Validity.IsValid defaults
validate_settings_iff_example = validate_settings_iff defaults

abbrev api_settings : Config
api_settings = record defaults {
  db = record defaults.db { dsn = "postgres://db" };
  logger = record { level = "info"; format = "TEXT" };
}

api_settings_valid : experiment_go.Config.validate api_settings ≡ none
unfolding experiment_go.Config.validate defaults lower_is
api_settings_valid = refl

abbrev any_pool : PoolConfig
any_pool = record {
  target = "db";
  max_conns = pos 4;
  min_conns = pos 0;
  max_conn_lifetime = pos 0;
  connect_timeout = pos 0;
}

ten_valid : experiment_go.Config.validate (with_max_conns 10 api_settings) ≡ none
unfolding experiment_go.Config.validate defaults lower_is
ten_valid = refl

max_conns_wrap_example :
    (experiment_go.Config.validate (with_max_conns (10 + 1 * 2 ^ 32) api_settings) ≡ none)
    × (pool_config (with_max_conns (10 + 1 * 2 ^ 32) api_settings).db any_pool
        ≡ pool_config (with_max_conns 10 api_settings).db any_pool)
max_conns_wrap_example = max_conns_wrap api_settings any_pool 10 1 ten_valid

reading_to_values-MatchesSchema_example :
    MatchesSchema table_schema (reading_to_values (row_of "m-1"))
reading_to_values-MatchesSchema_example =
    reading_to_values-MatchesSchema (row_of "m-1") (omega arith, omega arith)

burn_duration_bounds_example :
    (burn_duration (pos 2500) ≤ℤ pos 2_000_000_000)
    × (((2500 ≤ 2000) × (burn_duration (pos 2500) ≡ pos (2500 * 1_000_000)))
        ⊎ ((2000 < 2500)
            × (2500 ≤ 9_223_372_036_854)
            × (burn_duration (pos 2500) ≡ pos 2_000_000_000))
        ⊎ (9_223_372_036_854 < 2500))
burn_duration_bounds_example = burn_duration_bounds 2500

-- A clock that goes on by 3 in each round.
abbrev steady : ℕ → ℤ
steady k = pos (3 * k)

spin_rounds-EndsAt_example :
    (k : ℕ) × (spin_rounds 6 steady (pos 10) 0 ≡ some (suc k))
    × (k ≤ 5)
    × EndsAt steady (pos 10) 0 k
spin_rounds-EndsAt_example = spin_rounds-EndsAt steady (pos 10) 5 (omega arith)

-- Durations written as their number of nanoseconds.
abbrev nanosecond_library : Library
nanosecond_library = record go_library { parse_duration = parse_int }

nanosecond_library-IsReadable : IsReadable nanosecond_library format_int
nanosecond_library-IsReadable = record {
  stated = format_int-ne-nil;
  parsed = parse_int-format_int64;
}

defaults-IsWritable : IsWritable defaults
unfolding defaults
defaults-IsWritable = record {
  env = cons-ne-nil _ _;
  host = cons-ne-nil _ _;
  level = cons-ne-nil _ _;
  format = cons-ne-nil _ _;
  bq_table = cons-ne-nil _ _;
  port = ground arith;
  max_conns = ground arith;
  min_conns = ground arith;
  batch_rows = ground arith;
  read_timeout = ground arith;
  write_timeout = ground arith;
  idle_timeout = ground arith;
  shutdown_timeout = ground arith;
  max_conn_lifetime = ground arith;
  connect_timeout = ground arith;
}

load-as_variables_example :
    load nanosecond_library (variables (as_variables format_int defaults))
    ≡ (defaults, experiment_go.Config.validate defaults)
load-as_variables_example =
    load-as_variables nanosecond_library format_int nanosecond_library-IsReadable defaults
      defaults-IsWritable
