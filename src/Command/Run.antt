-- ===== src/Command/Run.antt =====
-- run and main of cmd/api/main.go. The logger, which the commands only write to, is left out; so is
-- the context, which a signal cancels.
pub mod Released
use experiment_go.Prelude.{ℕ, String, ◌==◌, Option, none, some, List, [], ◌∷◌, if◌then◌else◌}
use experiment_go.Prelude.Errors.{GoError, Message, lit, quoted}
use experiment_go.Config.{Config, Library, Environment, load}
use experiment_go.Command.Migrate.{Run, quiet, refused, run_migrate}
use experiment_go.Command.Serve.{Platform, serve}

module _ {W S A M P R : Type 0} (platform : Platform W S A M P R) where
  -- The switch over the arguments.
  unfoldable pub on_args : Config → List String → W → Run W
  unfolding run_migrate serve
  on_args cfg [] w = quiet (serve platform cfg w)
  on_args cfg (command ∷ rest) w =
      if command == "migrate"
      then run_migrate platform.migrations rest cfg.db.dsn w
      else refused
          (lit "unknown command " ∷ quoted command ∷ lit ", try: api | api migrate up" ∷ []) w

  abbrev pub loaded : List String → Config × Option GoError → W → Run W
  loaded args (cfg, some e) w = (some e, ([], w))
  loaded args (cfg, none) w = on_args cfg args w

  -- run
  unfoldable pub run : Library → Environment → List String → W → Run W
  unfolding on_args load
  run lib environment args w = loaded args (load lib environment) w

  -- What main does with the result: the exit status, and the line on stderr in front of what the
  -- commands have printed.
  abbrev pub exited : Run W → ℕ × (List Message × W)
  exited (none, (printed, w)) = (0, (printed, w))
  exited (some e, (printed, w)) = (1, ((lit "fatal: " ∷ e.message) ∷ printed, w))

  -- main
  unfoldable pub main : Library → Environment → List String → W → ℕ × (List Message × W)
  unfolding run
  main lib environment args w = exited (run lib environment args w)
