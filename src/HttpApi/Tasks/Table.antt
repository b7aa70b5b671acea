-- ===== src/HttpApi/Tasks/Table.antt =====
-- What the task endpoints answer, and do to the table, over the service and the Postgres repository.
use experiment_go.Prelude.{◌≡◌, inl, inr, refl, String, Bool-cases, ◌==◌, Option, none, some, List}
use experiment_go.Prelude.Int.{ℤ}
use experiment_go.Prelude.Text.{trim_space}
use experiment_go.Prelude.Text.Trim.{trim_space_iff}
use experiment_go.Prelude.Errors.{Result, ok, err}
use experiment_go.Task.{
  Task, UpdateParams, ListParams, normalise_title, create_task, update_task, new_service,
}
use experiment_go.Task.Postgres.{
  Pool, list_tasks, get_task, insert_task, replace_task, delete_task, new_postgres_repository,
}
use experiment_go.Task.Postgres.Contents.{Rowset, Same, OnPage, Table}
use experiment_go.Task.Store.{service, trim_space-IsBlank}
use experiment_go.HttpApi.Response.{Response}
use experiment_go.HttpApi.Tasks.{
  Payload, Binding, fail, parse_id, listed, on_query, on_get, on_create, on_update, on_update_id,
  on_remove, handle_list, handle_get, handle_create, handle_update, handle_remove,
}
use experiment_go.HttpApi.Tasks.Expected.{
  TaskCall, list_call, get_call, create_call, update_call, remove_call, page_of, OnList, OnGet,
  OnCreate, OnUpdate, OnRemove,
}
use experiment_go.HttpApi.Tasks.Replies.{
  select-OnGet, insert-OnCreate, update-OnUpdate, delete-OnRemove, page-OnList,
}

module _ {D Q B : Type 0} (pool : Pool D) (table : Table pool) (binding : Binding Q B) where
  unfoldable pub serve_call : TaskCall Q B → D → Response Payload × D
  unfolding handle_list handle_get handle_create handle_update handle_remove
  serve_call (list_call query) d = handle_list (service pool table) binding query d
  serve_call (get_call param) d = handle_get (service pool table) binding param d
  serve_call (create_call body) d = handle_create (service pool table) binding body d
  serve_call (update_call param body) d = handle_update (service pool table) binding param body d
  serve_call (remove_call param) d = handle_remove (service pool table) binding param d

  abbrev pub Answer : TaskCall Q B → D → Response Payload → Rowset → Rowset → Type 0
  Answer (list_call query) d r before after =
      OnList pool d (binding.list_query query) r before after
  Answer (get_call param) d r before after = OnGet pool d (parse_id param) r before after
  Answer (create_call body) d r before after =
      OnCreate pool d (binding.create_request body) r before after
  Answer (update_call param body) d r before after =
      OnUpdate pool d (parse_id param) (binding.update_request body) r before after
  Answer (remove_call param) d r before after = OnRemove pool d (parse_id param) r before after

  -- Behind the parsing of the id and the binding of the body.
  pub on_get-OnGet :
      (o : Option ℤ) (d : D)
      → OnGet pool d o
          (on_get (service pool table) binding o d).0
          (table.stored d)
          (table.stored (on_get (service pool table) binding o d).1)
  unfolding new_service new_postgres_repository get_task
  on_get-OnGet none d = (refl, λ j. refl)
  on_get-OnGet (some id) d =
      select-OnGet pool table binding id d (pool.select_by_id id d) refl (table.on_select id d)

  pub on_create-OnCreate :
      (b : Result String) (d : D)
      → OnCreate pool d b
          (on_create (service pool table) binding b d).0
          (table.stored d)
          (table.stored (on_create (service pool table) binding b d).1)
  unfolding fail new_service new_postgres_repository insert_task create_task normalise_title
  on_create-OnCreate (err e) d = (refl, λ j. refl)
  on_create-OnCreate (ok title) d = elim (Bool-cases (trim_space title == "")) [
    | inl e ↦ rw e (inr (inl ((trim_space_iff title).0 e, (refl, λ j. refl))))
    | inr e ↦ rw e (
        insert-OnCreate pool table binding title d (pool.insert (trim_space title) d).1
          (pool.insert (trim_space title) d).0 (trim_space-IsBlank title e) refl
          (table.on_insert (trim_space title) d))
  ]

  bound-OnUpdate :
      (id : ℤ) (b : Result UpdateParams) (d : D)
      → OnUpdate pool d
          (some id)
          b
          (on_update (service pool table) binding id b d).0
          (table.stored d)
          (table.stored (on_update (service pool table) binding id b d).1)
  unfolding fail new_service new_postgres_repository replace_task update_task normalise_title
  bound-OnUpdate id (err e) d = (refl, λ j. refl)
  bound-OnUpdate id (ok p) d = elim (Bool-cases (trim_space p.title == "")) [
    | inl e ↦ rw e (inr (inr (inl ((trim_space_iff p.title).0 e, (refl, λ j. refl)))))
    | inr e ↦ rw e (
        update-OnUpdate pool table binding id p d
          (pool.update_by_id (trim_space p.title) p.done id d).1
          (pool.update_by_id (trim_space p.title) p.done id d).0 (trim_space-IsBlank p.title e) refl
          (table.on_update (trim_space p.title) p.done id d))
  ]

  pub on_update-OnUpdate :
      (o : Option ℤ) (body : B) (d : D)
      → OnUpdate pool d o
          (binding.update_request body)
          (on_update_id (service pool table) binding o body d).0
          (table.stored d)
          (table.stored (on_update_id (service pool table) binding o body d).1)
  on_update-OnUpdate none body d = (refl, λ j. refl)
  on_update-OnUpdate (some id) body d = bound-OnUpdate id (binding.update_request body) d

  pub on_remove-OnRemove :
      (o : Option ℤ) (d : D)
      → OnRemove pool d o
          (on_remove (service pool table) binding o d).0
          (table.stored d)
          (table.stored (on_remove (service pool table) binding o d).1)
  unfolding new_service new_postgres_repository delete_task
  on_remove-OnRemove none d = (refl, λ j. refl)
  on_remove-OnRemove (some id) d =
      delete-OnRemove pool table binding id d (pool.delete_by_id id d).1 (pool.delete_by_id id d).0
        refl (table.on_delete id d)

  on_query-OnList :
      (b : Result ListParams) (d : D)
      → ((limit offset : ℤ) → OnPage (pool.select_page limit offset d))
      → OnList pool d b
          (on_query (service pool table) binding b d).0
          (table.stored d)
          (table.stored (on_query (service pool table) binding b d).1)
  unfolding new_service new_postgres_repository list_tasks
  on_query-OnList (err e) d pages = (refl, λ j. refl)
  on_query-OnList (ok p) d pages =
      page-OnList pool table binding p d (page_of pool d p) refl (pages _ _)

  listed-world : (r : Result (List Task) × D) → (listed (service pool table) binding r).1 ≡ r.1
  listed-world (ok tasks, d) = refl
  listed-world (err e, d) = refl

  on_query-Same :
      (b : Result ListParams) (d : D)
      → Same (table.stored d) (table.stored (on_query (service pool table) binding b d).1)
  unfolding new_service new_postgres_repository list_tasks
  on_query-Same (err e) d = λ j. refl
  on_query-Same (ok p) d = rw (listed-world ((service pool table).list p d)) (λ j. refl)

  -- A listing leaves the table as it was, whatever the errors are.
  pub list_call-Same :
      (query : Q) (d : D) → Same (table.stored d) (table.stored (serve_call (list_call query) d).1)
  unfolding serve_call handle_list
  list_call-Same query d = on_query-Same (binding.list_query query) d

  -- Over a database that acts as a table of rows by id, and whose errors wrap none of the task
  -- package's, every request to a task endpoint is answered as the table says.
  -- An id that is not a positive int64, and a query or body that gin refuses, give 400; so does a
  -- title that is blank, also under an id that is missing. For any other request, status 500 is the
  -- answer exactly if the statement of the endpoint fails at the database as the request finds it.
  -- If it does not fail, a get, update or delete is answered with 404 exactly if there is no such
  -- task; a get with the task of the table, an update with the task as it is stored under the
  -- trimmed title, a creation with 201 and a new task under the trimmed title, a delete with 204, and
  -- a listing with all the rows of its page. An answer that is not a success, a get and a listing
  -- leave the table as it was, and a success changes no other row.
  pub serve_call-Answer :
      (q : TaskCall Q B) (d : D)
      → ((limit offset : ℤ) → OnPage (pool.select_page limit offset d))
      → Answer q d (serve_call q d).0 (table.stored d) (table.stored (serve_call q d).1)
  unfolding serve_call handle_list handle_get handle_create handle_update handle_remove
  serve_call-Answer (list_call query) d pages = on_query-OnList (binding.list_query query) d pages
  serve_call-Answer (get_call param) d pages = on_get-OnGet (parse_id param) d
  serve_call-Answer (create_call body) d pages = on_create-OnCreate (binding.create_request body) d
  serve_call-Answer (update_call param body) d pages = on_update-OnUpdate (parse_id param) body d
  serve_call-Answer (remove_call param) d pages = on_remove-OnRemove (parse_id param) d
