-- ===== src/HttpApi/Tasks/Expected.antt =====
-- What each task endpoint may answer, and do to the rows of the table.
use experiment_go.Prelude.{ℕ, ◌≡◌, ◌≢◌, ◌⊎◌, String, false, Option, none, some, List, [], ◌∷◌, map}
use experiment_go.Prelude.Int.{ℤ}
use experiment_go.Prelude.Text.{trim_space}
use experiment_go.Prelude.Text.Trim.{IsBlank}
use experiment_go.Prelude.Errors.{GoError, Result, ok, err}
use experiment_go.Task.{Task, UpdateParams, ListParams}
use experiment_go.Task.Postgres.{Pool, Rows, row_error, page_limit, page_offset}
use experiment_go.Task.Postgres.Contents.{Rowset, Same, Written}
use experiment_go.HttpApi.Response.{Response, content, respond_data}
use experiment_go.HttpApi.Tasks.{Payload}

-- A request to one of the five task endpoints, as gin binds it: the query, the id, the body.
pub data TaskCall (Q B : Type 0) : Type 0 where
  list_call : Q → TaskCall Q B
  get_call : String → TaskCall Q B
  create_call : B → TaskCall Q B
  update_call : String → B → TaskCall Q B
  remove_call : String → TaskCall Q B

-- An answer with this status, on a table that stays as it is.
abbrev pub Refused : ℕ → Response Payload → Rowset → Rowset → Type 0
Refused status r before after = (r.status ≡ status) × Same before after

-- Some row of a page cannot be scanned.
abbrev pub HasError : List (Result Task) → Type 0
HasError [] = ⊥
HasError (ok t ∷ scans) = HasError scans
HasError (err e ∷ scans) = Unit

-- On the database as the request finds it.
module _ {D : Type 0} (pool : Pool D) (d : D) where
  -- The statement of an endpoint fails, for another reason than a missing row.
  abbrev pub SelectFails : ℤ → Type 0
  SelectFails id = (e : GoError) × (pool.select_by_id id d ≡ row_error e)

  abbrev pub InsertFails : String → Type 0
  InsertFails title = (e : GoError) × ((pool.insert (trim_space title) d).0 ≡ row_error e)

  abbrev pub UpdateFails : ℤ → UpdateParams → Type 0
  UpdateFails id p =
      (e : GoError) × ((pool.update_by_id (trim_space p.title) p.done id d).0 ≡ row_error e)

  abbrev pub DeleteFails : ℤ → Type 0
  DeleteFails id = (e : GoError) × ((pool.delete_by_id id d).0 ≡ err e)

  -- The page that a listing asks for.
  abbrev pub page_of : ListParams → Result Rows
  page_of p = pool.select_page (page_limit p.limit) (page_offset p.offset) d

  -- The query fails, or one of its rows, or the end of the rows.
  abbrev pub PageFails : ListParams → Type 0
  PageFails p =
      ((e : GoError) × (page_of p ≡ err e))
      ⊎ ((rows : Rows) × (page_of p ≡ ok rows) × (HasError rows.scans ⊎ (rows.end ≢ none)))

  -- All the rows are read.
  abbrev pub PageReads : ListParams → List Task → Type 0
  PageReads p tasks =
      (rows : Rows) × (page_of p ≡ ok rows) × (rows.scans ≡ map ok tasks) × (rows.end ≡ none)

  abbrev pub OnList : Result ListParams → Response Payload → Rowset → Rowset → Type 0
  OnList (err e) r before after = Refused 400 r before after
  OnList (ok p) r before after =
      ((tasks : List Task) × PageReads p tasks
        × (r ≡ respond_data 200 (Payload.many tasks))
        × Same before after)
      ⊎ (PageFails p × Refused 500 r before after)

  abbrev pub OnGet : Option ℤ → Response Payload → Rowset → Rowset → Type 0
  OnGet none r before after = Refused 400 r before after
  OnGet (some id) r before after =
      ((t : Task) × (before id ≡ some t)
        × (¬ SelectFails id)
        × (r ≡ respond_data 200 (Payload.one t))
        × Same before after)
      ⊎ ((before id ≡ none) × (¬ SelectFails id) × Refused 404 r before after)
      ⊎ (SelectFails id × Refused 500 r before after)

  abbrev pub OnCreate : Result String → Response Payload → Rowset → Rowset → Type 0
  OnCreate (err e) r before after = Refused 400 r before after
  OnCreate (ok title) r before after =
      ((t : Task) × (¬ IsBlank title)
        × (t.title ≡ trim_space title)
        × (t.done ≡ false)
        × (before t.id ≡ none)
        × (¬ InsertFails title)
        × (r.status ≡ 201)
        × (r.body ≡ content (Payload.one t))
        × Written t.id (some t) before after)
      ⊎ (IsBlank title × Refused 400 r before after)
      ⊎ ((¬ IsBlank title) × InsertFails title × Refused 500 r before after)

  abbrev pub OnUpdate : Option ℤ → Result UpdateParams → Response Payload → Rowset → Rowset → Type 0
  OnUpdate none bound r before after = Refused 400 r before after
  OnUpdate (some id) (err e) r before after = Refused 400 r before after
  OnUpdate (some id) (ok p) r before after =
      ((t : Task) × (¬ IsBlank p.title)
        × (t.title ≡ trim_space p.title)
        × (t.done ≡ p.done)
        × (t.id ≡ id)
        × (before id ≢ none)
        × (¬ UpdateFails id p)
        × (r ≡ respond_data 200 (Payload.one t))
        × Written id (some t) before after)
      ⊎ ((¬ IsBlank p.title)
          × (before id ≡ none)
          × (¬ UpdateFails id p)
          × Refused 404 r before after)
      ⊎ (IsBlank p.title × Refused 400 r before after)
      ⊎ ((¬ IsBlank p.title) × UpdateFails id p × Refused 500 r before after)

  abbrev pub OnRemove : Option ℤ → Response Payload → Rowset → Rowset → Type 0
  OnRemove none r before after = Refused 400 r before after
  OnRemove (some id) r before after =
      ((before id ≢ none) × (¬ DeleteFails id) × (r.status ≡ 204) × Written id none before after)
      ⊎ ((before id ≡ none) × (¬ DeleteFails id) × Refused 404 r before after)
      ⊎ (DeleteFails id × Refused 500 r before after)
