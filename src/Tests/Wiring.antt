-- ===== src/Tests/Wiring.antt =====
-- The binary over libraries that note what they open and close, with a pool that cannot be pinged.
use experiment_go.Prelude.{ℕ, refl, Option, none, some, List, [], ◌∷◌, true, ◌==◌, if◌then◌else◌}
use experiment_go.Prelude.Int.{pos}
use experiment_go.Prelude.Errors.{GoError, ok, err, lit, plain_error}
use experiment_go.Consumption.{Parsing}
use experiment_go.Consumption.Xml.{Fault, Decoder}
use experiment_go.BqSink.Opening.{SinkLibrary}
use experiment_go.Config.{Environment}
use experiment_go.Database.{PoolLibrary}
use experiment_go.Migrator.{Engine, Opening}
use experiment_go.Task.Postgres.{Pool, no_rows}
use experiment_go.Command.Run.{main}
use experiment_go.Command.Run.Released.{main-Holds}
use experiment_go.Command.Serve.{Platform}
use experiment_go.Command.Serve.Trace.{
  replay, Event, opened, closed, served_by, migrations, pool, writer, stream, bucket, Tracked,
  Holds, nothing,
}
use experiment_go.Tests.Ingestion.{noon}
use experiment_go.Tests.Parser.{common}
use experiment_go.Tests.Settings.{go_library}

abbrev World : Type 0
World = List Event

abbrev note : Event → World → Option GoError × World
note e w = (none, e ∷ w)

abbrev noting_engine : Engine World
noting_engine = record {
  up = λ w. (none, w);
  down = λ w. (none, w);
  steps = λ n w. (none, w);
  version = λ w. ok (1, true);
  force = λ v w. (none, w);
  close = λ w. ((none, none), closed migrations ∷ w);
}

abbrev noting_opening : Opening World
noting_opening = record {
  urls = record {
    parse_url = λ text. ok (record { scheme = "postgres"; rest = text });
    url_text = λ u. u.rest;
  };
  embedded = none;
  connect = λ dsn w. (ok noting_engine, opened migrations ∷ w);
}

abbrev unreachable : PoolLibrary World
unreachable = record {
  parse_config = λ dsn. ok (record {
    target = dsn;
    max_conns = pos 4;
    min_conns = pos 0;
    max_conn_lifetime = pos 0;
    connect_timeout = pos 0;
  });
  new_with_config = λ p w. note (opened pool) w;
  ping = λ t w. (some (plain_error (lit "connection refused" ∷ [])), w);
  close = λ w. closed pool ∷ w;
}

abbrev noting_sink : SinkLibrary World Unit Unit Unit Unit
noting_sink = record {
  new_client = λ project w. note (opened writer) w;
  convert_schema = λ columns. ok tt;
  build_descriptor = λ schema scope. ok tt;
  as_message = λ descriptor. some tt;
  type_name = λ descriptor. "";
  normalise = λ descriptor. ok tt;
  new_stream = λ target descriptor w. note (opened stream) w;
  close_stream = λ w. note (closed stream) w;
  close_client = λ w. note (closed writer) w;
}

abbrev no_table : Pool World
no_table = record {
  select_page = λ limit offset w. ok (record { scans = []; end = none });
  select_by_id = λ id w. no_rows;
  insert = λ title w. (no_rows, w);
  update_by_id = λ title done id w. (no_rows, w);
  delete_by_id = λ id w. (ok 0, w);
}

abbrev empty_document : List ℕ → Decoder
empty_document payload = record { tokens = []; fault = Fault.eof }

abbrev binary : Platform World Unit Unit Unit Unit Unit
binary = record {
  migrations = noting_opening;
  pool = unreachable;
  statements = no_table;
  ready_ping = λ w. none;
  sink = noting_sink;
  stream_of = λ m. record {
    has_field = λ name. true;
    marshal = λ values. ok [];
    append_rows = λ rows w. ((none, tt), w);
    get_result = λ result w. (none, w);
  };
  gcs = record {
    new_client = λ w. note (opened bucket) w;
    close_client = λ w. note (closed bucket) w;
  };
  bucket_of = λ name. record { write = λ u w. (none, w); close = λ u w. (none, w) };
  names = record { sha256 = λ text. []; format_date = λ t. ""; format_clock = λ t. "" };
  render = λ message. "";
  now = noon;
  open_document = empty_document;
  common = common;
  stream_document = λ d root n series. Parsing.finish none;
  register_energy = λ rows registry. registry;
  validate_token = λ token audience. err (plain_error (lit "no" ∷ []));
  run_server = λ server deps w. note (served_by deps) w;
}

binary-Tracked : Tracked (λ (w : World). w) binary
binary-Tracked = record {
  on_connect = λ dsn w. (
    refl,
    record {
      on_up = λ v. refl;
      on_down = λ v. refl;
      on_steps = λ n v. refl;
      on_force = λ n v. refl;
      on_close = λ v. refl;
    },
  );
  on_pool = λ p w. refl;
  on_ping = λ t w. refl;
  on_pool_close = λ w. refl;
  on_writer = λ project w. refl;
  on_stream = λ t p w. refl;
  on_stream_close = λ w. refl;
  on_writer_close = λ w. refl;
  on_bucket = λ w. refl;
  on_bucket_close = λ w. refl;
  on_served = λ s deps w. refl;
}

-- A database is set, and it is migrated on the start.
abbrev settings : Environment
settings key =
    if key == "DATABASE_URL"
    then some "postgres://db"
    else if key == "MIGRATE_ON_START"
    then some "true"
    else none

nothing_open : Holds (λ (w : World). w) nothing []
unfolding replay
nothing_open = refl

main-Holds_example : Holds (λ (w : World). w) nothing (main binary go_library settings [] []).1.1
main-Holds_example =
    main-Holds (λ (w : World). w) binary binary-Tracked go_library settings [] [] nothing_open
