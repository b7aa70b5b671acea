-- ===== src/Command/Serve.antt =====
-- serve and wireIngest of cmd/api/main.go: the two roles wired over a world `W`.
pub mod Trace
pub mod Migrations
pub mod Clients
pub mod Resources
use experiment_go.Prelude.{
  ℕ, String, Bool, true, false, ◌==◌, Option, none, some, List, [], ◌∷◌, if◌then◌else◌,
}
use experiment_go.Prelude.Int.{ℤ}
use experiment_go.Prelude.Errors.{
  GoError, Message, Result, ok, err, lit, is_error, canceled, wrap_error,
}
use experiment_go.Consumption.{Time, Delivery, Parsing}
use experiment_go.Consumption.Xml.{Name, Decoder}
use experiment_go.Consumption.Registry.{Registry, new_registry}
use experiment_go.Consumption.Service.{ingest}
use experiment_go.XmlFmt.Esmp.{Common, Esmp, new_esmp}
use experiment_go.XmlFmt.Esmp.SeriesRounds.{SeriesParser, register_esmp}
use experiment_go.Config.{Config, is_production}
use experiment_go.BqSink.{Stream, write}
use experiment_go.BqSink.Opening.{SinkLibrary, new_sink, close_sink}
use experiment_go.Quarantine.{Bucket, quarantine}
use experiment_go.Quarantine
use experiment_go.Quarantine.Opening.{GcsLibrary, new_gcs, close_gcs}
use experiment_go.Database.{PoolLibrary, new_pool}
use experiment_go.Migrator.{Opening}
use experiment_go.Task.{new_service}
use experiment_go.Task.Postgres.{Pool, new_postgres_repository}
use experiment_go.HttpApi.Oidc.{Claims, verify}
use experiment_go.HttpApi.Router.{Deps}
use experiment_go.HttpApi.Server.{Server, new_server}
use experiment_go.Command.Migrate.{migrate_up}

-- All that the binary uses of libraries and services. `run_server` is Run of a server over the router
-- of some dependencies; `register_energy` registers the parser that is not in the repository.
pub record Platform (W S A M P R : Type 0) : Type 1 where
  pub migrations : Opening W
  pub pool : PoolLibrary W
  pub statements : Pool W
  pub ready_ping : W → Option GoError
  pub sink : SinkLibrary W S A M P
  pub stream_of : M → Stream W R
  pub gcs : GcsLibrary W
  pub bucket_of : String → Bucket W
  pub names : Quarantine.Library
  pub render : Message → String
  pub now : Time
  pub open_document : List ℕ → Decoder
  pub common : Common
  pub stream_document : Decoder → Name → ℕ → SeriesParser → Parsing
  pub register_energy : ℤ → Registry → Registry
  pub validate_token : String → String → Result Claims
  pub run_server : Server → Deps W → W → Option GoError × W

-- The version that is built in.
abbrev dev_version : String
dev_version = "dev"

module _ {W S A M P R : Type 0} (platform : Platform W S A M P R) (cfg : Config) where
  -- The dependencies before a database and the ingest role are added.
  unfoldable pub base_deps : Deps W
  unfolding is_production
  base_deps = record {
    tasks = none;
    db = none;
    version = dev_version;
    prodlike = is_production cfg;
    enable_burn = cfg.burn_endpoint;
    enable_ingest = false;
    ingest = none;
    verifier = none;
    quarantine = none;
  }

  unfoldable pub with_database : Deps W → Deps W
  unfolding new_service new_postgres_repository
  with_database deps = record deps {
    db = some platform.ready_ping;
    tasks = some (new_service (new_postgres_repository platform.statements));
  }

  abbrev parsers : Registry
  parsers = platform.register_energy cfg.ingest.batch_rows (
      register_esmp platform.common platform.stream_document
        (new_esmp platform.common cfg.ingest.batch_rows) new_registry)

  unfoldable pub with_ingest : M → Deps W → Deps W
  unfolding ingest write quarantine verify register_esmp new_esmp
  with_ingest m deps = record deps {
    enable_ingest = true;
    ingest =
        some (ingest platform.open_document parsers (write (platform.stream_of m)) platform.now);
    verifier = some (
        verify platform.validate_token (record {
          audience = cfg.ingest.audience;
          service_account = cfg.ingest.push_service_account;
        }));
    quarantine = some (λ id payload reason.
        quarantine platform.names (platform.bucket_of cfg.ingest.quarantine_bucket) platform.now id
          payload (platform.render reason));
  }

  abbrev parked : M → Deps W → Option GoError × W → Result (Deps W) × W
  parked m deps (some e, w) =
      (err (wrap_error (lit "ingest" ∷ []) e), (close_sink platform.sink w).1)
  parked m deps (none, w) = (ok (with_ingest m deps), w)

  abbrev sunk : Deps W → Result M × W → Result (Deps W) × W
  sunk deps (err e, w) = (err (wrap_error (lit "ingest" ∷ []) e), w)
  sunk deps (ok m, w) = parked m deps (new_gcs platform.gcs w)

  -- wireIngest
  unfoldable pub wire_ingest : Deps W → W → Result (Deps W) × W
  unfolding new_sink close_sink new_gcs with_ingest
  wire_ingest deps w = sunk deps (
      new_sink platform.sink
        (record {
          project = cfg.ingest.bq_project;
          dataset = cfg.ingest.bq_dataset;
          table = cfg.ingest.bq_table;
        })
        w)

  -- The function that wireIngest returns: both are closed, and errors are only logged.
  unfoldable pub close_ingest : W → W
  unfolding close_sink close_gcs
  close_ingest w = (close_gcs platform.gcs (close_sink platform.sink w).1).1

  abbrev run_error : Option GoError → Option GoError
  run_error none = none
  run_error (some e) =
      if is_error e canceled then none else some (wrap_error (lit "http server" ∷ []) e)

  abbrev ended : Option GoError × W → Option GoError × W
  ended (e, w) = (run_error e, w)

  -- The server runs until it ends.
  unfoldable pub run_http : Deps W → W → Option GoError × W
  unfolding new_server
  run_http deps w = ended (platform.run_server (new_server cfg.http) deps w)

  abbrev ingest_closed : Option GoError × W → Option GoError × W
  ingest_closed (e, w) = (e, close_ingest w)

  abbrev wired : Result (Deps W) × W → Option GoError × W
  wired (err e, w) = (some e, w)
  wired (ok deps, w) = ingest_closed (run_http deps w)

  -- From the test of cfg.Ingest.Enabled on.
  unfoldable pub serve_role : Deps W → W → Option GoError × W
  unfolding wire_ingest run_http close_ingest
  serve_role deps w = if cfg.ingest.enabled then wired (wire_ingest deps w) else run_http deps w

  abbrev pool_closed : Option GoError × W → Option GoError × W
  pool_closed (e, w) = (e, platform.pool.close w)

  abbrev pooled : Option GoError × W → Option GoError × W
  pooled (some e, w) = (some (wrap_error (lit "database" ∷ []) e), w)
  pooled (none, w) = pool_closed (serve_role (with_database base_deps) w)

  -- From the test of cfg.DB.DSN on.
  unfoldable pub serve_database : W → Option GoError × W
  unfolding base_deps with_database serve_role new_pool
  serve_database w =
      if cfg.db.dsn == "" then serve_role base_deps w else pooled (new_pool platform.pool cfg.db w)

  abbrev migrated : Option GoError × W → Option GoError × W
  migrated (some e, w) = (some e, w)
  migrated (none, w) = serve_database w

  -- serve
  unfoldable pub serve : W → Option GoError × W
  unfolding migrate_up serve_database
  serve w =
      if cfg.migrate_on_start
      then migrated (migrate_up platform.migrations cfg.db.dsn w)
      else serve_database w
