-- ===== src/Task/Postgres.antt =====
-- internal/task/postgres.go and the tasks table of migrations/000001. Postgres itself, and the
-- client pgx, are the parameter `Pool`: one field for each of the five statements.
pub mod Contents
pub mod Pages
use experiment_go.Prelude.{
  ℕ, String, Bool, ◌||◌, Option, none, some, List, [], ◌∷◌, eqb, if◌then◌else◌,
}
use experiment_go.Prelude.Int.{ℤ, pos, leb_ℤ, ltb_ℤ}
use experiment_go.Prelude.Errors.{
  GoError, Result, ok, err, lit, num, sentinel, not_found, wrap_error, ◌>>=◌,
}
use experiment_go.Task.{Task, UpdateParams, ListParams, Repository}

-- The result of QueryRow(…).Scan: a row, pgx.ErrNoRows, or another error.
pub data RowReply : Type 0 where
  row : Task → RowReply
  no_rows : RowReply
  row_error : GoError → RowReply

-- The result of Query: what Scan returns for each row, and rows.Err at the end.
pub record Rows : Type 0 where
  pub scans : List (Result Task)
  pub end : Option GoError

-- The statements, with their arguments in the order $1, $2, ….
pub record Pool (D : Type 0) : Type 0 where
  -- SELECT … FROM tasks ORDER BY id DESC LIMIT $1 OFFSET $2
  pub select_page : ℤ → ℤ → D → Result Rows
  -- SELECT … FROM tasks WHERE id = $1
  pub select_by_id : ℤ → D → RowReply
  -- INSERT INTO tasks (title) VALUES ($1) RETURNING …
  pub insert : String → D → RowReply × D
  -- UPDATE tasks SET title = $1, done = $2, updated_at = now() WHERE id = $3 RETURNING …
  pub update_by_id : String → Bool → ℤ → D → RowReply × D
  -- DELETE FROM tasks WHERE id = $1: the rows affected
  pub delete_by_id : ℤ → D → Result ℕ × D

-- The defaults and bounds of a page.
unfoldable pub page_limit : ℤ → ℤ
page_limit limit = if leb_ℤ limit (pos 0) || ltb_ℤ (pos 100) limit then pos 20 else limit

unfoldable pub page_offset : ℤ → ℤ
page_offset offset = if ltb_ℤ offset (pos 0) then pos 0 else offset

abbrev scanned : Task → Result (List Task) → Result (List Task)
scanned t (ok tasks) = ok (t ∷ tasks)
scanned t (err e) = err e

-- The loop over rows.Next.
unfoldable pub scan_rows : List (Result Task) → Option GoError → Result (List Task)
scan_rows [] none = ok []
scan_rows [] (some e) = err (wrap_error (lit "iterate tasks" ∷ []) e)
scan_rows (err e ∷ scans) end = err (wrap_error (lit "scan task" ∷ []) e)
scan_rows (ok t ∷ scans) end = scanned t (scan_rows scans end)

abbrev pub read_rows : Result Rows → Result (List Task)
read_rows (err e) = err (wrap_error (lit "list tasks" ∷ []) e)
read_rows (ok rows) = scan_rows rows.scans rows.end

-- The switch of Get and Update over the error of a row.
abbrev pub one_row : String → ℤ → RowReply → Result Task
one_row doing id (row t) = ok t
one_row doing id no_rows = err (sentinel not_found)
one_row doing id (row_error e) = err (wrap_error (lit doing ∷ num id ∷ []) e)

-- pgx.ErrNoRows
abbrev pub no_rows_error : GoError
no_rows_error = record { chain = []; message = lit "no rows in result set" ∷ [] }

-- Create has no case of its own for pgx.ErrNoRows.
abbrev pub created_row : RowReply → Result Task
created_row (row t) = ok t
created_row no_rows = err (wrap_error (lit "create task" ∷ []) no_rows_error)
created_row (row_error e) = err (wrap_error (lit "create task" ∷ []) e)

abbrev pub affected : ℤ → Result ℕ → Option GoError
affected id (err e) = some (wrap_error (lit "delete task " ∷ num id ∷ []) e)
affected id (ok n) = if eqb n 0 then some (sentinel not_found) else none

module _ {D : Type 0} (pool : Pool D) where
  -- PostgresRepository.List
  unfoldable pub list_tasks : ListParams → D → Result (List Task) × D
  unfolding page_limit page_offset scan_rows
  list_tasks p d = (read_rows (pool.select_page (page_limit p.limit) (page_offset p.offset) d), d)

  -- PostgresRepository.Get
  unfoldable pub get_task : ℤ → D → Result Task × D
  get_task id d = (one_row "get task " id (pool.select_by_id id d), d)

  -- PostgresRepository.Create
  unfoldable pub insert_task : String → D → Result Task × D
  insert_task title d = let (reply, d') = pool.insert title d in (created_row reply, d')

  -- PostgresRepository.Update
  unfoldable pub replace_task : ℤ → UpdateParams → D → Result Task × D
  replace_task id p d =
      let (reply, d') = pool.update_by_id p.title p.done id d in
      (one_row "update task " id reply, d')

  -- PostgresRepository.Delete
  unfoldable pub delete_task : ℤ → D → Option GoError × D
  delete_task id d = let (reply, d') = pool.delete_by_id id d in (affected id reply, d')

  -- NewPostgresRepository
  unfoldable pub new_postgres_repository : Repository D
  unfolding list_tasks get_task insert_task replace_task delete_task
  new_postgres_repository = record {
    list = list_tasks;
    get = get_task;
    create = insert_task;
    update = replace_task;
    delete = delete_task;
  }
