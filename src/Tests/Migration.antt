-- ===== src/Tests/Migration.antt =====
-- The migrator and `api migrate` over one embedded migration, which is applied or not.
use experiment_go.Prelude.{
  ℕ, zero, suc, ◌≤◌, refl, inl, inr, Bool, true, false, Option, none, some, [], ◌∷◌, arith,
}
use experiment_go.Prelude.Int.{ℤ, pos, negsuc}
use experiment_go.Prelude.Errors.{
  GoError, Result, ok, err, lit, sentinel, plain_error, no_change, nil_version,
}
use experiment_go.Migrator.{Engine, Opening, UrlLibrary, up}
use experiment_go.Migrator.History.{History, UpPromise, OnUp, OnDown, OnStepsBack, up-UpPromise}
use experiment_go.Command.Migrate.{run_migrate}
use experiment_go.Command.Migrate.Rollback.{Schema, MigratePromise, run_migrate-MigratePromise}

abbrev applied : Bool → ℕ
applied true = 1
applied false = 0

abbrev apply : Bool → Option GoError × Bool
apply true = (some (sentinel no_change), true)
apply false = (none, true)

abbrev revert : Bool → Option GoError × Bool
revert true = (none, false)
revert false = (some (sentinel no_change), false)

abbrev short : GoError
short = plain_error (lit "limit 2 short by 1" ∷ [])

abbrev step_by : ℤ → Bool → Option GoError × Bool
step_by (pos n) b = (none, true)
step_by (negsuc zero) b = revert b
step_by (negsuc (suc n)) b = (some short, false)

abbrev version_of : Bool → Result (ℕ × Bool)
version_of true = ok (1, false)
version_of false = err (sentinel nil_version)

abbrev one_migration : Engine Bool
one_migration = record {
  up = apply;
  down = revert;
  steps = step_by;
  version = version_of;
  force = λ v b. (none, true);
  close = λ b. ((none, none), b);
}

apply-OnUp : (b : Bool) → OnUp 1 (apply b).0 (applied b) (applied (apply b).1)
apply-OnUp true = inl (refl, refl, refl)
apply-OnUp false = refl

revert-OnDown : (b : Bool) → OnDown (revert b).0 (applied b) (applied (revert b).1)
revert-OnDown true = refl
revert-OnDown false = inl (refl, refl, refl)

step_by-OnStepsBack :
    (n : ℕ) (b : Bool)
    → OnStepsBack (suc n) (step_by (negsuc n) b).0 (applied b) (applied (step_by (negsuc n) b).1)
step_by-OnStepsBack zero true = refl
step_by-OnStepsBack zero false = inl (refl, refl)
step_by-OnStepsBack (suc n) true = inr (refl, omega arith, omega arith)
step_by-OnStepsBack (suc n) false = inr (refl, omega arith, omega arith)

one_migration-History : History applied 1 one_migration
one_migration-History = record {
  on_up = apply-OnUp;
  on_down = revert-OnDown;
  on_steps = step_by-OnStepsBack;
  on_force = λ v b. omega arith;
  on_close = λ b. refl;
}

up-UpPromise_example : UpPromise 1 (up one_migration false).0 0 (applied (up one_migration false).1)
up-UpPromise_example =
    up-UpPromise applied 1 one_migration one_migration-History false (omega arith)

abbrev plain_urls : UrlLibrary
plain_urls = record {
  parse_url = λ text. ok (record { scheme = "postgres"; rest = text });
  url_text = λ u. u.rest;
}

abbrev opening : Opening Bool
opening = record { urls = plain_urls; embedded = none; connect = λ dsn b. (ok one_migration, b) }

applied_le : (b : Bool) → applied b ≤ 1
applied_le true = omega arith
applied_le false = omega arith

opening-Schema : Schema applied 1 opening
opening-Schema = record {
  bounded = applied_le;
  on_connect = λ dsn b. (refl, one_migration-History);
}

run_migrate-MigratePromise_example :
    MigratePromise applied 1 opening opening-Schema
      ("down" ∷ "1" ∷ [])
      true
      (run_migrate opening ("down" ∷ "1" ∷ []) "postgres://db" true)
run_migrate-MigratePromise_example =
    run_migrate-MigratePromise applied 1 opening opening-Schema ("down" ∷ "1" ∷ []) "postgres://db"
      true
