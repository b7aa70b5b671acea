-- ===== src/Task/Store.antt =====
-- The service over the Postgres repository, against a map from ids to tasks.
pub mod Tidy
pub mod Walk
use experiment_go.Prelude.{
  ℕ, ◌≡◌, ◌≢◌, ◌↔◌, ◌⊎◌, inl, inr, refl, String, Bool, true, false, Option, none, some, List, arith,
  Bool-cases, ◌==◌, eqb, if◌then◌else◌,
}
use experiment_go.Prelude.Int.{ℤ}
use experiment_go.Prelude.Text.{trim_space}
use experiment_go.Prelude.Text.Trim.{IsBlank, trim_space_iff}
use experiment_go.Prelude.Errors.{
  GoError, Result, ok, err, is_error, not_found, invalid_title, sentinel,
}
use experiment_go.Task.{
  Task, UpdateParams, ListParams, Repository, normalise_title, create_task, update_task,
  new_service,
}
use experiment_go.Task.Postgres.{
  Pool, RowReply, row, no_rows, row_error, one_row, created_row, affected, list_tasks, get_task,
  insert_task, replace_task, delete_task, new_postgres_repository,
}
use experiment_go.Task.Postgres.Contents.{
  Rowset, Same, Written, OnSelect, OnInsert, OnUpdate, OnDelete, Table,
}

-- A call of the service.
pub data Request : Type 0 where
  list : ListParams → Request
  get : ℤ → Request
  create : String → Request
  update : ℤ → UpdateParams → Request
  delete : ℤ → Request

-- What a call returns.
pub data Outcome : Type 0 where
  many : Result (List Task) → Outcome
  one : Result Task → Outcome
  gone : Option GoError → Outcome

module _ {D : Type 0} (svc : Repository D) where
  unfoldable pub call : Request → D → Outcome × D
  call (list p) d = let (r, d') = svc.list p d in (many r, d')
  call (get id) d = let (r, d') = svc.get id d in (one r, d')
  call (create title) d = let (r, d') = svc.create title d in (one r, d')
  call (update id p) d = let (r, d') = svc.update id p d in (one r, d')
  call (delete id) d = let (r, d') = svc.delete id d in (gone r, d')

-- What each call promises, on the tasks before and after it.
abbrev pub Promise : Request → Outcome → Rowset → Rowset → Type 0
Promise (list p) (many r) before after = Same before after
Promise (get id) (one (ok t)) before after = (before id ≡ some t) × Same before after
Promise (get id) (one (err e)) before after =
    (is_error e invalid_title ≡ false)
    × ((is_error e not_found ≡ false) ⊎ (before id ≡ none))
    × Same before after
Promise (create title) (one (ok t)) before after =
    (¬ IsBlank title)
    × (t.title ≡ trim_space title)
    × (t.done ≡ false)
    × (before t.id ≡ none)
    × Written t.id (some t) before after
Promise (create title) (one (err e)) before after =
    (is_error e not_found ≡ false)
    × ((is_error e invalid_title ≡ true) ↔ IsBlank title)
    × Same before after
Promise (update id p) (one (ok t)) before after =
    (¬ IsBlank p.title)
    × (t.title ≡ trim_space p.title)
    × (t.done ≡ p.done)
    × (t.id ≡ id)
    × ((old : Task) × (before id ≡ some old) × (t.created_at ≡ old.created_at))
    × Written id (some t) before after
Promise (update id p) (one (err e)) before after =
    ((is_error e invalid_title ≡ true) ↔ IsBlank p.title)
    × ((is_error e not_found ≡ false) ⊎ (before id ≡ none))
    × Same before after
Promise (delete id) (gone none) before after = (before id ≢ none) × Written id none before after
Promise (delete id) (gone (some e)) before after =
    (is_error e invalid_title ≡ false)
    × ((is_error e not_found ≡ false) ⊎ (before id ≡ none))
    × Same before after
Promise _ _ before after = ⊥

pub trim_space-IsBlank : (title : String) → (trim_space title == "") ≡ false → ¬ IsBlank title
trim_space-IsBlank title e b = cc (e, (trim_space_iff title).1 b)

get-Promise :
    (id : ℤ) (reply : RowReply) (before : Rowset)
    → OnSelect id reply before
    → Promise (get id) (one (one_row "get task " id reply)) before before
get-Promise id (row t) before h = (h, λ j. refl)
get-Promise id no_rows before h = (refl, inr h, λ j. refl)
get-Promise id (row_error e) before h = (h.1, inl h.0, λ j. refl)

-- Behind a title that is not blank.
create-Promise :
    (title : String) (reply : RowReply) (before after : Rowset)
    → ¬ IsBlank title
    → OnInsert (trim_space title) reply before after
    → Promise (create title) (one (created_row reply)) before after
create-Promise title (row t) before after b h = (b, h.1, h.2, h.0, h.3)
create-Promise title no_rows before after b h = absurd h
create-Promise title (row_error e) before after b h =
    (h.0.0, (λ q. absurd (cc (q, h.0.1)), λ q. absurd (b q)), h.1)

update-Promise :
    (id : ℤ) (p : UpdateParams) (reply : RowReply) (before after : Rowset)
    → ¬ IsBlank p.title
    → OnUpdate (trim_space p.title) p.done id reply before after
    → Promise (update id p) (one (one_row "update task " id reply)) before after
update-Promise id p (row t) before after b h = (b, h.2, h.3, h.1, h.0, h.4)
update-Promise id p no_rows before after b h =
    ((λ q. ground arith, λ q. absurd (b q)), inr h.0, h.1)
update-Promise id p (row_error e) before after b h =
    ((λ q. absurd (cc (q, h.0.1)), λ q. absurd (b q)), inl h.0.0, h.1)

delete-Promise :
    (id : ℤ) (reply : Result ℕ) (before after : Rowset)
    → OnDelete id reply before after
    → Promise (delete id) (gone (affected id reply)) before after
delete-Promise id (err e) before after h = (h.0.1, inl h.0.0, h.1)
delete-Promise id (ok n) before after (inl h) = rw h.0 (refl, inr h.1, h.2)
delete-Promise id (ok n) before after (inr h) = rw h.0 (h.1, h.2)

module _ {D : Type 0} (pool : Pool D) (table : Table pool) where
  abbrev pub service : Repository D
  service = new_service (new_postgres_repository pool)

  abbrev Kept : Request → Outcome × D → D → Type 0
  Kept r (outcome, d') d = Promise r outcome (table.stored d) (table.stored d')

  -- Each call of the service does what the map does. A task is created or changed only under a title
  -- that is not blank, with the title trimmed, and the others stay as they are; the error for an
  -- invalid title is returned exactly for a blank one; an id is reported missing, and a task as
  -- deleted, only if this is so; and a call that returns an error has changed nothing.
  pub service-Promise : (r : Request) (d : D) → Kept r (call service r d) d
  unfolding call new_service new_postgres_repository
  service-Promise (list p) d = λ j. refl
  service-Promise (get id) d =
      get-Promise id (pool.select_by_id id d) (table.stored d) (table.on_select id d)
  service-Promise (create title) d = elim (Bool-cases (trim_space title == "")) [
    | inl e ↦ rw e (refl, (λ _. (trim_space_iff title).0 e, λ _. refl), λ j. refl)
    | inr e ↦ rw e (
        create-Promise title (pool.insert (trim_space title) d).0 (table.stored d)
          (table.stored (pool.insert (trim_space title) d).1) (trim_space-IsBlank title e)
          (table.on_insert (trim_space title) d))
  ]
  service-Promise (update id p) d = elim (Bool-cases (trim_space p.title == "")) [
    | inl e ↦ rw e ((λ _. (trim_space_iff p.title).0 e, λ _. refl), inl refl, λ j. refl)
    | inr e ↦ rw e (
        update-Promise id p (pool.update_by_id (trim_space p.title) p.done id d).0 (table.stored d)
          (table.stored (pool.update_by_id (trim_space p.title) p.done id d).1)
          (trim_space-IsBlank p.title e) (table.on_update (trim_space p.title) p.done id d))
  ]
  service-Promise (delete id) d =
      delete-Promise id (pool.delete_by_id id d).0 (table.stored d)
        (table.stored (pool.delete_by_id id d).1) (table.on_delete id d)
