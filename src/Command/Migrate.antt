-- ===== src/Command/Migrate.antt =====
-- cmd/api/migrate.go. What is printed is a list of messages. The migrator's connection is part of the
-- database `D`; an error in closing it is only logged.
pub mod Rollback
use experiment_go.Prelude.{
  ℕ, String, Bool, true, false, ◌==◌, Option, none, some, List, [], ◌∷◌, if◌then◌else◌,
}
use experiment_go.Prelude.Int.{ℤ, pos, ltb_ℤ}
use experiment_go.Prelude.Text.{parse_int}
use experiment_go.Prelude.Errors.{GoError, Message, Result, ok, err, lit, num, quoted, plain_error}
use experiment_go.Migrator.{Engine, Opening, up, down, version, force, close, new_migrator}

-- What a command returns, what it has printed, and the database behind it.
abbrev pub Run : Type 0 → Type 0
Run D = Option GoError × (List Message × D)

abbrev pub quiet : {D : Type 0} → Option GoError × D → Run D
quiet (e, d) = (e, ([], d))

abbrev pub refused : {D : Type 0} → Message → D → Run D
refused message d = (some (plain_error message), ([], d))

module _ {D : Type 0} (m : Engine D) where
  abbrev pub on_count : String → Option ℤ → D → Run D
  on_count text none d =
      refused (lit "migrate down: " ∷ quoted text ∷ lit " is not a positive number or \"all\"" ∷ [])
        d
  on_count text (some n) d =
      if ltb_ℤ n (pos 1)
      then refused
          (lit "migrate down: " ∷ quoted text ∷ lit " is not a positive number or \"all\"" ∷ []) d
      else quiet (down m n d)

  -- The case "down", on the arguments behind it.
  abbrev pub on_down : List String → D → Run D
  on_down [] d = quiet (down m (pos 1) d)
  on_down (text ∷ rest) d =
      if text == "all" then quiet (down m (pos 0) d) else on_count text (parse_int text) d

  abbrev pub state_text : Bool → String
  state_text true = "dirty"
  state_text false = "clean"

  abbrev pub on_version : Result (Option (ℕ × Bool)) → D → Run D
  on_version (err e) d = (some e, ([], d))
  on_version (ok none) d = (none, ((lit "no migrations applied yet" ∷ []) ∷ [], d))
  on_version (ok (some (v, dirty))) d = (
    none,
    ((lit "version " ∷ num (pos v) ∷ lit " (" ∷ lit (state_text dirty) ∷ lit ")" ∷ []) ∷ [], d),
  )

  abbrev pub on_forced : String → Option ℤ → D → Run D
  on_forced text none d =
      refused (lit "migrate force: " ∷ quoted text ∷ lit " is not a valid version" ∷ []) d
  on_forced text (some v) d =
      if ltb_ℤ v (pos 0)
      then refused (lit "migrate force: " ∷ quoted text ∷ lit " is not a valid version" ∷ []) d
      else quiet (force m v d)

  -- The case "force".
  abbrev pub on_force : List String → D → Run D
  on_force [] d = refused (lit "migrate force: expected a version, e.g. api migrate force 1" ∷ []) d
  on_force (text ∷ rest) d = on_forced text (parse_int text) d

  -- The switch over the command.
  unfoldable pub on_command : String → List String → D → Run D
  unfolding up down version force parse_int
  on_command cmd rest d =
      if cmd == "up"
      then quiet (up m d)
      else if cmd == "down"
      then on_down rest d
      else if cmd == "version"
      then on_version (version m d) d
      else if cmd == "force"
      then on_force rest d
      else refused
          (lit "unknown migrate command "
            ∷ quoted cmd
            ∷ lit ", expected: up | down [n|all] | version | force <v>"
            ∷ [])
          d

  -- The deferred call of Close.
  abbrev pub closed : Run D → Run D
  closed (e, (printed, d)) = (e, (printed, (close m d).1))

abbrev pub command_of : List String → String
command_of [] = "up"
command_of (cmd ∷ rest) = cmd

abbrev pub rest_of : List String → List String
rest_of [] = []
rest_of (cmd ∷ rest) = rest

abbrev pub opened_migrate : {D : Type 0} → List String → Result (Engine D) × D → Run D
opened_migrate args (err e, d) = (some e, ([], d))
opened_migrate args (ok m, d) = closed m (on_command m (command_of args) (rest_of args) d)

-- runMigrate
unfoldable pub run_migrate : {D : Type 0} → Opening D → List String → String → D → Run D
unfolding new_migrator on_command close
run_migrate opening args dsn d = opened_migrate args (new_migrator opening dsn d)

abbrev pub opened_up : {D : Type 0} → Result (Engine D) × D → Option GoError × D
opened_up (err e, d) = (some e, d)
opened_up (ok m, d) = let (e, d') = up m d in (e, (close m d').1)

-- migrateUp
unfoldable pub migrate_up : {D : Type 0} → Opening D → String → D → Option GoError × D
unfolding new_migrator up close
migrate_up opening dsn d = opened_up (new_migrator opening dsn d)
