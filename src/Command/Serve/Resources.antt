-- ===== src/Command/Serve/Resources.antt =====
-- serve closes all that it opens, whichever call fails.
use experiment_go.Prelude.{
  is_some, ◌≡◌, refl, Bool, true, false, ◌||◌, ◌==◌, Option, none, some, List, if_both, Bool-cases,
  inl, inr, eq_iff, arith,
}
use experiment_go.Prelude.Errors.{GoError, Result, ok, err}
use experiment_go.Config.{Config}
use experiment_go.Config.Validity.{IsValid}
use experiment_go.Command.Serve.Migrations.{migrate_up-Holds}
use experiment_go.BqSink.Opening.{close_sink}
use experiment_go.Quarantine.Opening.{new_gcs, client_made}
use experiment_go.Database.{new_pool}
use experiment_go.HttpApi.Router.{Deps}
use experiment_go.HttpApi.Server.{new_server}
use experiment_go.Command.Migrate.{migrate_up}
use experiment_go.Command.Serve.{
  Platform, base_deps, with_database, with_ingest, parked, sunk, wire_ingest, run_http, wired,
  serve_role, pooled, serve_database, migrated, serve,
}
use experiment_go.Command.Serve.Trace.{
  pool, bucket, Event, closed, served, served_by, Held, step, nothing, Tracked, piped, Holds,
  Gained, Holds-step, Opens-Gained,
}
use experiment_go.Command.Serve.Clients.{
  close_sink-Holds, close_ingest-Holds, Sunk, new_sink-Sunk, parsed-Gained,
}

module _ {W : Type 0} (events : W → List Event) where
  module _ {S A M P R : Type 0} (platform : Platform W S A M P R) (cfg : Config)
      (tracked : Tracked events platform) (valid : IsValid cfg) where
    abbrev Ends : Held → Option GoError × W → Type 0
    Ends h (e, w) = Holds events h w

    -- The server, in a state that has what the dependencies say.
    run_http-Ends :
        (deps : Deps W) (h : Held) (w : W)
        → step (served_by deps) h ≡ some h
        → Holds events h w
        → Ends h (run_http platform cfg deps w)
    unfolding run_http
    run_http-Ends deps h w fits holds =
        Holds-step events (served_by deps) h h w
          (platform.run_server (new_server cfg.http) deps w).1 fits
          (tracked.on_served (new_server cfg.http) deps w) holds

    -- Ends with the error of the opening, or in an ending with what was opened.
    abbrev Wires : Bool → Result (Deps W) × W → Type 0
    Wires p (err e, w) = Holds events (piped p false false false) w
    Wires p (ok deps, w) =
        Holds events (piped p true true true) w
        × (step (served_by deps) (piped p true true true) ≡ some (piped p true true true))

    -- Dependencies that a state with a pool if `p`, and with no ingest role, may serve.
    abbrev Based : Bool → Deps W → Type 0
    Based p deps =
        (cfg.ingest.enabled ≡ false
          → step (served_by deps) (piped p false false false) ≡ some (piped p false false false))
        × (step (served (is_some deps.db || is_some deps.tasks) true true) (piped p true true true)
            ≡ some (piped p true true true))

    parked-Wires :
        (p : Bool) (deps : Deps W) (m : M) (x : Option GoError × W)
        → Based p deps
        → Gained events (piped p true true false) (piped p true true true) x
        → Wires p (parked platform cfg m deps (client_made platform.gcs x))
    unfolding with_ingest close_sink
    parked-Wires p deps m (none, w) based gained = (gained, based.1)
    parked-Wires p deps m (some e, w) based gained =
        close_sink-Holds events platform cfg tracked p false w gained

    sunk-Wires :
        (p : Bool) (deps : Deps W) (r : Result M × W)
        → Based p deps
        → Sunk events platform cfg tracked p r
        → Wires p (sunk platform cfg deps r)
    unfolding new_gcs step
    sunk-Wires p deps (err e, w) based holds = holds
    sunk-Wires p deps (ok m, w) based holds =
        let x = platform.gcs.new_client w in
        parked-Wires p deps m x based (
          Opens-Gained events bucket (piped p true true false) (piped p true true true) w x refl
            (tracked.on_bucket w) holds)

    wired-Ends :
        (p : Bool) (r : Result (Deps W) × W)
        → Wires p r
        → Ends (piped p false false false) (wired platform cfg r)
    wired-Ends p (err e, w) holds = holds
    wired-Ends p (ok deps, w) (holds, fits) =
        close_ingest-Holds events platform cfg tracked p (run_http platform cfg deps w).1
          (run_http-Ends deps (piped p true true true) w fits holds)

    serve_role-Ends :
        (p : Bool) (deps : Deps W) (w : W)
        → Based p deps
        → Holds events (piped p false false false) w
        → Ends (piped p false false false) (serve_role platform cfg deps w)
    unfolding serve_role wire_ingest
    serve_role-Ends p deps w based holds = elim (Bool-cases cfg.ingest.enabled) [
      | inl on ↦ rw on (
          wired-Ends p (wire_ingest platform cfg deps w)
            (sunk-Wires p deps _ based (new_sink-Sunk events platform cfg tracked p _ w holds)))
      | inr off ↦ rw off (run_http-Ends deps (piped p false false false) w (based.0 off) holds)
    ]

    pooled-Ends :
        (x : Option GoError × W)
        → Gained events nothing (piped true false false false) x
        → Ends nothing (pooled platform cfg x)
    unfolding step base_deps with_database
    pooled-Ends (some e, w) gained = gained
    pooled-Ends (none, w) gained =
        let deps = with_database platform cfg (base_deps platform cfg) in
        let w' = (serve_role platform cfg deps w).1 in
        Holds-step events (closed pool) (piped true false false false) nothing w'
          (platform.pool.close w') refl (tracked.on_pool_close w')
          (serve_role-Ends true deps w (λ off. refl, refl) gained)

    serve_database-Ends :
        (w : W) → Holds events nothing w → Ends nothing (serve_database platform cfg w)
    unfolding serve_database new_pool base_deps step
    serve_database-Ends w holds = elim (Bool-cases (cfg.db.dsn == "")) [
      | inl no_dsn ↦ rw no_dsn (
          serve_role-Ends false (base_deps platform cfg) w
            (
              λ off. elim valid.database [
                | inl on ↦ ground (arith, on, off)
                | inr given ↦ elim (given ((eq_iff cfg.db.dsn "").0 no_dsn)) [ ]
              ],
              refl,
            )
            holds)
      | inr dsn ↦ rw dsn (
          pooled-Ends (new_pool platform.pool cfg.db w)
            (parsed-Gained events platform cfg tracked _ w holds))
    ]

    migrated-Ends :
        (x : Option GoError × W) → Ends nothing x → Ends nothing (migrated platform cfg x)
    migrated-Ends (some e, w) holds = holds
    migrated-Ends (none, w) holds = serve_database-Ends w holds

    -- A served configuration is one that `validate` accepts.
    pub serve-Holds :
        (w : W) → Holds events nothing w → Holds events nothing (serve platform cfg w).1
    unfolding serve
    serve-Holds w holds =
        if_both (λ x. Ends nothing x) cfg.migrate_on_start
          (migrated-Ends (migrate_up platform.migrations cfg.db.dsn w)
            (migrate_up-Holds events platform.migrations tracked.on_connect cfg.db.dsn w holds))
          (serve_database-Ends w holds)
