-- ===== src/Command/Serve/Trace.antt =====
-- A trace of what the libraries open and close, and what is held behind it.
use experiment_go.Prelude.{
  is_some, ◌≡◌, String, Bool, true, false, ◌&&◌, ◌||◌, not, Option, none, some, List, [], ◌∷◌,
}
use experiment_go.Prelude.Int.{ℤ}
use experiment_go.Prelude.Errors.{GoError, Result, ok, err}
use experiment_go.BqSink.Opening.{Target}
use experiment_go.Migrator.{Engine}
use experiment_go.HttpApi.Router.{Deps}
use experiment_go.HttpApi.Server.{Server}
use experiment_go.Command.Serve.{Platform}

pub data Resource : Type 0 where
  migrations : Resource
  pool : Resource
  writer : Resource
  stream : Resource
  bucket : Resource

-- `served d i h`: the server has run, with the database in its dependencies if `d`, with the ingest
-- role if `i`, and with the three interfaces of that role if `h`.
pub data Event : Type 0 where
  opened : Resource → Event
  closed : Resource → Event
  served : Bool → Bool → Bool → Event

-- What is open.
pub record Held : Type 0 where
  pub migrations : Bool
  pub pool : Bool
  pub writer : Bool
  pub stream : Bool
  pub bucket : Bool

abbrev pub unless : Bool → Held → Option Held
unless true h = none
unless false h = some h

-- `none` stands for a mistake: what is open is opened, what is closed is closed, a writer is closed
-- under its stream, or the server runs with neither the database nor the ingest role, without what
-- they need, without the interfaces of the ingest role, or while a migration runs.
unfoldable pub step : Event → Held → Option Held
step (opened migrations) h = unless h.migrations (record h { migrations = true })
step (opened pool) h = unless h.pool (record h { pool = true })
step (opened writer) h = unless h.writer (record h { writer = true })
step (opened stream) h = unless (h.stream || not h.writer) (record h { stream = true })
step (opened bucket) h = unless h.bucket (record h { bucket = true })
step (closed migrations) h = unless (not h.migrations) (record h { migrations = false })
step (closed pool) h = unless (not h.pool) (record h { pool = false })
step (closed writer) h = unless (not h.writer || h.stream) (record h { writer = false })
step (closed stream) h = unless (not h.stream) (record h { stream = false })
step (closed bucket) h = unless (not h.bucket) (record h { bucket = false })
step (served d i handlers) h =
    unless
      (h.migrations
        || not (d || i)
        || (d && not h.pool)
        || (i && not (handlers && h.writer && h.stream && h.bucket)))
      h

abbrev pub held : Bool → Bool → Bool → Bool → Bool → Held
held m p w s b = record { migrations = m; pool = p; writer = w; stream = s; bucket = b }

abbrev pub nothing : Held
nothing = held false false false false false

-- A state with no migration: the pool, the writer, the stream and the bucket.
abbrev pub piped : Bool → Bool → Bool → Bool → Held
piped p w s b = held false p w s b

abbrev then_step : Event → Option Held → Option Held
then_step e none = none
then_step e (some h) = step e h

-- What is open behind the events, the newest first.
unfoldable pub replay : List Event → Option Held
unfolding step
replay [] = some nothing
replay (e ∷ events) = then_step e (replay events)

-- The run of a server over these dependencies.
abbrev pub served_by : {W : Type 0} → Deps W → Event
served_by deps =
    served (is_some deps.db || is_some deps.tasks) deps.enable_ingest
      (is_some deps.ingest && is_some deps.verifier && is_some deps.quarantine)

module _ {W : Type 0} (events : W → List Event) where
  -- A call that opens: on an error nothing is open.
  abbrev pub Opens : Resource → W → Option GoError × W → Type 0
  Opens r w (none, w') = events w' ≡ opened r ∷ events w
  Opens r w (some e, w') = events w' ≡ events w

  -- A connection of the migrator is open until its Close, which releases it even on an error.
  pub record Keeps (m : Engine W) : Type 0 where
    pub on_up : (w : W) → events (m.up w).1 ≡ events w
    pub on_down : (w : W) → events (m.down w).1 ≡ events w
    pub on_steps : (n : ℤ) (w : W) → events (m.steps n w).1 ≡ events w
    pub on_force : (n : ℤ) (w : W) → events (m.force n w).1 ≡ events w
    pub on_close : (w : W) → events (m.close w).1 ≡ closed migrations ∷ events w

  abbrev pub Engaged : W → Result (Engine W) × W → Type 0
  Engaged w (err e, w') = events w' ≡ events w
  Engaged w (ok m, w') = (events w' ≡ opened migrations ∷ events w) × Keeps m

  -- What the calls of libraries do to the trace. A Close releases even when it returns an error.
  pub record Tracked {S A M P R : Type 0} (platform : Platform W S A M P R) : Type 0 where
    pub on_connect : (dsn : String) (w : W) → Engaged w (platform.migrations.connect dsn w)
    pub on_pool : (p : _) (w : W) → Opens pool w (platform.pool.new_with_config p w)
    pub on_ping : (t : _) (w : W) → events (platform.pool.ping t w).1 ≡ events w
    pub on_pool_close : (w : W) → events (platform.pool.close w) ≡ closed pool ∷ events w
    pub on_writer : (project : String) (w : W) → Opens writer w (platform.sink.new_client project w)
    pub on_stream : (t : Target) (p : P) (w : W) → Opens stream w (platform.sink.new_stream t p w)
    pub on_stream_close :
        (w : W) → events (platform.sink.close_stream w).1 ≡ closed stream ∷ events w
    pub on_writer_close :
        (w : W) → events (platform.sink.close_client w).1 ≡ closed writer ∷ events w
    pub on_bucket : (w : W) → Opens bucket w (platform.gcs.new_client w)
    pub on_bucket_close :
        (w : W) → events (platform.gcs.close_client w).1 ≡ closed bucket ∷ events w
    pub on_served :
        (s : Server) (deps : Deps W) (w : W)
        → events (platform.run_server s deps w).1 ≡ served_by deps ∷ events w

  abbrev pub Holds : Held → W → Type 0
  Holds h w = replay (events w) ≡ some h

  pub Holds-step :
      (e : Event) (h h' : Held) (w w' : W)
      → step e h ≡ some h'
      → events w' ≡ e ∷ events w
      → Holds h w
      → Holds h' w'
  unfolding replay
  Holds-step e h h' w w' stepped traced holds = rw (traced, holds) stepped

  pub Holds-same : (h : Held) (w w' : W) → events w' ≡ events w → Holds h w → Holds h w'
  Holds-same h w w' traced holds = rw traced holds

  -- What an opening leaves: more is held, or as much as before.
  abbrev pub Gained : Held → Held → Option GoError × W → Type 0
  Gained h h' (none, w) = Holds h' w
  Gained h h' (some e, w) = Holds h w

  pub Opens-Gained :
      (r : Resource) (h h' : Held) (w : W) (x : Option GoError × W)
      → step (opened r) h ≡ some h'
      → Opens r w x
      → Holds h w
      → Gained h h' x
  Opens-Gained r h h' w (none, w') stepped traced holds =
      Holds-step (opened r) h h' w w' stepped traced holds
  Opens-Gained r h h' w (some e, w') stepped traced holds = Holds-same h w w' traced holds
