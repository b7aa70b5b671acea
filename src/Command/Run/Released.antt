-- ===== src/Command/Run/Released.antt =====
-- What is left open when the binary exits.
use experiment_go.Prelude.{◌≡◌, refl, String, Option, none, some, List, [], ◌∷◌, ◌==◌, if_both}
use experiment_go.Prelude.Errors.{GoError}
use experiment_go.Config.{Config, Library, Environment, validate, load}
use experiment_go.Config.Validity.{validate_settings_iff}
use experiment_go.Command.Migrate.{Run}
use experiment_go.Command.Serve.{Platform}
use experiment_go.Command.Serve.Trace.{Event, Tracked, Holds, nothing}
use experiment_go.Command.Serve.Migrations.{run_migrate-Holds}
use experiment_go.Command.Serve.Resources.{serve-Holds}
use experiment_go.Command.Run.{on_args, loaded, exited, run, main}

module _ {W : Type 0} (events : W → List Event) where
  module _ {S A M P R : Type 0} (platform : Platform W S A M P R)
      (tracked : Tracked events platform) where
    on_args-Holds :
        (cfg : Config) (args : List String) (w : W)
        → validate cfg ≡ none
        → Holds events nothing w
        → Holds events nothing (on_args platform cfg args w).1.1
    unfolding on_args
    on_args-Holds cfg [] w valid holds =
        serve-Holds events platform cfg tracked ((validate_settings_iff cfg).0 valid) w holds
    on_args-Holds cfg (command ∷ rest) w valid holds =
        if_both (λ (r : Run W). Holds events nothing r.1.1) (command == "migrate")
          (run_migrate-Holds events platform.migrations tracked.on_connect rest cfg.db.dsn w holds)
          holds

    loaded-Holds :
        (args : List String) (cfg : Config) (e : Option GoError) (w : W)
        → validate cfg ≡ e
        → Holds events nothing w
        → Holds events nothing (loaded platform args (cfg, e) w).1.1
    loaded-Holds args cfg (some e) w valid holds = holds
    loaded-Holds args cfg none w valid holds = on_args-Holds cfg args w valid holds

    exited-Holds :
        (r : Run W) → Holds events nothing r.1.1 → Holds events nothing (exited platform r).1.1
    exited-Holds (none, (printed, w)) holds = holds
    exited-Holds (some e, (printed, w)) holds = holds

    -- Whatever the environment and the arguments say, and whichever call of a library fails, the
    -- binary exits with everything closed that it has opened: every call is made in a state that
    -- allows it (nothing is opened twice or closed twice, a stream is closed before its client; the
    -- server runs with no migration open, for the tasks or for the ingest role, with a pool if it has
    -- tasks or a database probe, and, if it has the ingest role, with client, stream and bucket open
    -- and with a service, a verifier and a quarantine), and nothing is open behind the last one. It
    -- starts with nothing open, and the calls of the libraries open and close what `Tracked` says.
    pub main-Holds :
        (lib : Library) (environment : Environment) (args : List String) (w : W)
        → Holds events nothing w
        → Holds events nothing (main platform lib environment args w).1.1
    unfolding main run load
    main-Holds lib environment args w holds =
        exited-Holds (loaded platform args (load lib environment) w)
          (loaded-Holds args (load lib environment).0 (load lib environment).1 w refl holds)
