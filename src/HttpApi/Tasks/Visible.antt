-- ===== src/HttpApi/Tasks/Visible.antt =====
-- The task endpoints show what they have done.
use experiment_go.Prelude.{◌<◌, ◌≡◌, inl, inr, refl, ◌==◌, Bool-cases, String, arith}
use experiment_go.Prelude.Text.{trim_space}
use experiment_go.Prelude.Errors.{Result, ok, err}
use experiment_go.Task.{Task, normalise_title, create_task, new_service}
use experiment_go.Task.Postgres.{
  Pool, RowReply, row, no_rows, row_error, created_row, insert_task, new_postgres_repository,
}
use experiment_go.Task.Postgres.Contents.{Table}
use experiment_go.Task.Store.{create, service, service-Promise, call}
use experiment_go.HttpApi.Response.{Response}
use experiment_go.HttpApi.Tasks.{
  Payload, Binding, parse_id, on_create, handle_create, handle_update, handle_remove,
}
use experiment_go.HttpApi.Tasks.Expected.{
  TaskCall, list_call, get_call, create_call, update_call, remove_call,
}
use experiment_go.HttpApi.Tasks.Table.{serve_call, on_update-OnUpdate, on_remove-OnRemove}
use experiment_go.HttpApi.Tasks.Lookup.{
  IsSerial, Created, Updated, Gone, created-Created, OnRemove-Gone, OnUpdate-Updated,
}

module _ {D Q B : Type 0} (pool : Pool D) (table : Table pool) (binding : Binding Q B)
    (serial : (title : String) (d : D) (t : Task)
      → (pool.insert title d).0 ≡ row t
      → IsSerial t.id) where
  created_row-row : (reply : RowReply) (t : Task) → created_row reply ≡ ok t → reply ≡ row t
  created_row-row (row u) t h = cc
  created_row-row no_rows t h = cc
  created_row-row (row_error e) t h = cc

  create-IsSerial :
      (title : String) (d : D) (t : Task)
      → ((service pool table).create title d).0 ≡ ok t
      → IsSerial t.id
  unfolding new_service new_postgres_repository create_task insert_task normalise_title
  create-IsSerial title d t h = elim (Bool-cases (trim_space title == "")) [
    | inl blank ↦ absurd (cc (rw blank at h))
    | inr tidy ↦
        serial (trim_space title) d t
          (created_row-row (pool.insert (trim_space title) d).0 t (rw tidy at h))
  ]

  on_create-Created :
      (bound : Result String) (d : D)
      → (on_create (service pool table) binding bound d).0.status < 300
      → Created pool table binding (on_create (service pool table) binding bound d)
  unfolding call
  on_create-Created (err e) d good = absurd (omega (arith, good))
  on_create-Created (ok title) d good =
      created-Created pool table binding title ((service pool table).create title d)
        (table.stored d) (create-IsSerial title d) (service-Promise pool table (create title) d)
        good

  -- What a successful answer to a call says about a GET that follows it.
  abbrev pub Visible : TaskCall Q B → Response Payload × D → Type 0
  Visible (create_call body) r = Created pool table binding r
  Visible (update_call param body) r = Updated pool table binding param r
  Visible (remove_call param) (r, d) = Gone pool table binding param d
  Visible (list_call query) r = Unit
  Visible (get_call param) r = Unit

  -- The task endpoints, over a database that acts as a table of rows by id and gives new rows
  -- positive int64 ids, show what they have done. If a request is answered with a status below 300, a
  -- GET that follows it is answered by 500 if its own statement fails at the database as the request
  -- has left it, and if it does not fail, by 200 with the same task under the path that the Location
  -- header of a creation names, by 200 with the same task behind an update, and by 404 behind a
  -- removal.
  pub serve_call-Visible :
      (q : TaskCall Q B) (d : D)
      → (serve_call pool table binding q d).0.status < 300
      → Visible q (serve_call pool table binding q d)
  unfolding serve_call handle_create handle_update handle_remove
  serve_call-Visible (create_call body) d good =
      on_create-Created (binding.create_request body) d good
  serve_call-Visible (update_call param body) d good =
      let (r, d') = serve_call pool table binding (update_call param body) d in
      OnUpdate-Updated pool table binding param (parse_id param) (binding.update_request body) r
        (table.stored d) d d' refl (on_update-OnUpdate pool table binding (parse_id param) body d)
        good
  serve_call-Visible (remove_call param) d good =
      let (r, d') = serve_call pool table binding (remove_call param) d in
      OnRemove-Gone pool table binding param (parse_id param) r (table.stored d) d d' refl
        (on_remove-OnRemove pool table binding (parse_id param) d) good
  serve_call-Visible (list_call query) d good = tt
  serve_call-Visible (get_call param) d good = tt
