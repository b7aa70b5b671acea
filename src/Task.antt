-- ===== src/Task.antt =====
-- internal/task/task.go and service.go: the model, the business rules, and the storage contract.
pub mod Titles
pub mod Postgres
pub mod Store
use experiment_go.Prelude.{String, Bool, Option, none, some, List, ◌==◌, if◌then◌else◌}
use experiment_go.Prelude.Int.{ℤ}
use experiment_go.Prelude.Text.{trim_space}
use experiment_go.Prelude.Errors.{GoError, Result, ok, err, sentinel, invalid_title}
use experiment_go.Consumption.{Time}

pub record Task : Type 0 where
  pub id : ℤ
  pub title : String
  pub done : Bool
  pub created_at : Time
  pub updated_at : Time

-- UpdateParams; CreateParams is the title alone.
pub record UpdateParams : Type 0 where
  pub title : String
  pub done : Bool

pub record ListParams : Type 0 where
  pub limit : ℤ
  pub offset : ℤ

-- Repository, on a database `D` that its methods change. Service has the same methods.
pub record Repository (D : Type 0) : Type 0 where
  pub list : ListParams → D → Result (List Task) × D
  pub get : ℤ → D → Result Task × D
  pub create : String → D → Result Task × D
  pub update : ℤ → UpdateParams → D → Result Task × D
  pub delete : ℤ → D → Option GoError × D

-- normaliseTitle
unfoldable pub normalise_title : String → Result String
normalise_title title =
    let trimmed = trim_space title in
    if trimmed == "" then err (sentinel invalid_title) else ok trimmed

module _ {D : Type 0} (repo : Repository D) where
  abbrev create_titled : Result String → D → Result Task × D
  create_titled (err e) d = (err e, d)
  create_titled (ok title) d = repo.create title d

  abbrev update_titled : ℤ → Bool → Result String → D → Result Task × D
  update_titled id done (err e) d = (err e, d)
  update_titled id done (ok title) d = repo.update id (record { title = title; done = done }) d

  -- service.Create
  unfoldable pub create_task : String → D → Result Task × D
  unfolding normalise_title
  create_task title d = create_titled (normalise_title title) d

  -- service.Update
  unfoldable pub update_task : ℤ → UpdateParams → D → Result Task × D
  unfolding normalise_title
  update_task id p d = update_titled id p.done (normalise_title p.title) d

  -- NewService: List, Get and Delete go to the repository as they are.
  unfoldable pub new_service : Repository D
  unfolding create_task update_task
  new_service = record {
    list = repo.list;
    get = repo.get;
    create = create_task;
    update = update_task;
    delete = repo.delete;
  }
