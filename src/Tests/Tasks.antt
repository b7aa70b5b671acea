-- ===== src/Tests/Tasks.antt =====
-- Requests to the task service over a table that holds one row at most.
use experiment_go.Prelude.{
  ℕ, suc, map, take, drop, length, ◌≡◌, refl, String, Bool, true, false, Option, none, some, List,
  [], ◌∷◌, arith, Bool-cases, inl, inr, if◌then◌else◌,
}
use experiment_go.Prelude.Int.{ℤ, pos_part, pos, negsuc, eqb_ℤ}
use experiment_go.Prelude.Errors.{GoError, Result, ok, lit, plain_error}
use experiment_go.HttpApi.Tasks.{Binding}
use experiment_go.HttpApi.Tasks.Expected.{update_call}
use experiment_go.HttpApi.Tasks.Table.{serve_call, Answer, serve_call-Answer}
use experiment_go.Task.{Task}
use experiment_go.Task.Postgres.{Pool, RowReply, row, no_rows, row_error}
use experiment_go.Task.Postgres.Contents.{
  Rowset, AllForeign, OnPage, OnSelect, OnInsert, OnUpdate, OnDelete, Table,
}
use experiment_go.Task.Store.{create, call, Promise, service, service-Promise}
use experiment_go.Task.Store.Walk.{IsListing, Paged, walk, walk-IsListing}
use experiment_go.Tests.Ingestion.{noon}

-- The row with the id 1: its title and whether it is done.
abbrev pub task_of : String × Bool → Task
task_of (title, done) = record {
  id = pos 1;
  title = title;
  done = done;
  created_at = noon;
  updated_at = noon;
}

abbrev pub row_if : Task → Bool → Option Task
row_if t b = if b then some t else none

abbrev pub stored_rows : Option (String × Bool) → Rowset
stored_rows none id = none
stored_rows (some entry) id = row_if (task_of entry) (eqb_ℤ (pos 1) id)

abbrev pub reply_of : Option Task → RowReply
reply_of none = no_rows
reply_of (some t) = row t

abbrev pub full : GoError
full = plain_error (lit "table is full" ∷ [])

abbrev pub insert_row : String → Option (String × Bool) → RowReply × Option (String × Bool)
insert_row title none = (row (task_of (title, false)), some (title, false))
insert_row title (some entry) = (row_error full, some entry)

abbrev pub update_at : String → Bool → String × Bool → Bool → RowReply × Option (String × Bool)
update_at title done entry true = (row (task_of (title, done)), some (title, done))
update_at title done entry false = (no_rows, some entry)

abbrev pub update_row :
    String → Bool → ℤ → Option (String × Bool) → RowReply × Option (String × Bool)
update_row title done id none = (no_rows, none)
update_row title done id (some entry) = update_at title done entry (eqb_ℤ (pos 1) id)

abbrev pub delete_at : String × Bool → Bool → Result ℕ × Option (String × Bool)
delete_at entry true = (ok 1, none)
delete_at entry false = (ok 0, some entry)

abbrev pub delete_row : ℤ → Option (String × Bool) → Result ℕ × Option (String × Bool)
delete_row id none = (ok 0, none)
delete_row id (some entry) = delete_at entry (eqb_ℤ (pos 1) id)

abbrev pub all_rows : Option (String × Bool) → List Task
all_rows none = []
all_rows (some entry) = task_of entry ∷ []

abbrev pub one_row_pool : Pool (Option (String × Bool))
one_row_pool = record {
  select_page = λ limit offset d. ok (record {
    scans = map ok (take (pos_part limit) (drop (pos_part offset) (all_rows d)));
    end = none;
  });
  select_by_id = λ id d. reply_of (stored_rows d id);
  insert = insert_row;
  update_by_id = update_row;
  delete_by_id = delete_row;
}

first_id : (id : ℤ) → eqb_ℤ (pos 1) id ≡ true → id ≡ pos 1
first_id (pos n) e = ground arith
first_id (negsuc n) e = ground arith

pub stored_rows-OnSelect :
    (before : Rowset) (id : ℤ) (o : Option Task) → before id ≡ o → OnSelect id (reply_of o) before
stored_rows-OnSelect before id none e = e
stored_rows-OnSelect before id (some t) e = e

pub insert_row-OnInsert :
    (title : String) (d : Option (String × Bool))
    → OnInsert title (insert_row title d).0 (stored_rows d) (stored_rows (insert_row title d).1)
insert_row-OnInsert title none = (refl, refl, refl, λ j. refl)
insert_row-OnInsert title (some entry) = ((refl, refl), λ j. refl)

pub update_row-OnUpdate :
    (title : String) (done : Bool) (id : ℤ) (d : Option (String × Bool))
    → OnUpdate title done id
        (update_row title done id d).0
        (stored_rows d)
        (stored_rows (update_row title done id d).1)
update_row-OnUpdate title done id none = (refl, λ j. refl)
update_row-OnUpdate title done id (some entry) = elim (Bool-cases (eqb_ℤ (pos 1) id)) [
  | inl e ↦ rw (first_id id e) (
    (task_of entry, refl, refl),
    refl,
    refl,
    refl,
    λ j. elim (Bool-cases (eqb_ℤ (pos 1) j)) [ inl q ↦ rw q | inr q ↦ rw q ],
  )
  | inr e ↦ rw e (rw e, λ j. refl)
]

pub delete_row-OnDelete :
    (id : ℤ) (d : Option (String × Bool))
    → OnDelete id (delete_row id d).0 (stored_rows d) (stored_rows (delete_row id d).1)
delete_row-OnDelete id none = inl (refl, refl, λ j. refl)
delete_row-OnDelete id (some entry) = elim (Bool-cases (eqb_ℤ (pos 1) id)) [
  | inl e ↦ rw (first_id id e) (
      inr (refl, λ q. cc, λ j. elim (Bool-cases (eqb_ℤ (pos 1) j)) [ inl q ↦ rw q | inr q ↦ rw q ]))
  | inr e ↦ rw e (inl (refl, rw e, λ j. refl))
]

abbrev pub one_row_table : Table one_row_pool
one_row_table = record {
  stored = stored_rows;
  on_select = λ id d. stored_rows-OnSelect (stored_rows d) id (stored_rows d id) refl;
  on_insert = insert_row-OnInsert;
  on_update = update_row-OnUpdate;
  on_delete = delete_row-OnDelete;
}

service-Promise_example :
    Promise
      (create "  buy milk ")
      (call (service one_row_pool one_row_table) (create "  buy milk ") none).0
      (stored_rows none)
      (stored_rows (call (service one_row_pool one_row_table) (create "  buy milk ") none).1)
service-Promise_example = service-Promise one_row_pool one_row_table (create "  buy milk ") none

abbrev pub text_binding : Binding String (List ℕ)
text_binding = record {
  list_query = λ query. ok (record { limit = pos 50; offset = pos 0 });
  create_request = λ body. ok "buy milk";
  update_request = λ body. ok (record { title = " tea"; done = true });
}

read-AllForeign : (tasks : List Task) → AllForeign (map ok tasks)
read-AllForeign [] = tt
read-AllForeign (t ∷ tasks) = read-AllForeign tasks

one_row-OnPage :
    (d : Option (String × Bool)) (limit offset : ℤ)
    → OnPage (one_row_pool.select_page limit offset d)
one_row-OnPage d limit offset =
    (read-AllForeign (take (pos_part limit) (drop (pos_part offset) (all_rows d))), tt)

-- An update of the row under 1.
serve_call-Answer_example :
    Answer one_row_pool one_row_table text_binding
      (update_call "1" [])
      (some ("buy milk", false))
      (serve_call one_row_pool one_row_table text_binding
        (update_call "1" [])
        (some ("buy milk", false))).0
      (stored_rows (some ("buy milk", false)))
      (stored_rows
        (serve_call one_row_pool one_row_table text_binding
          (update_call "1" [])
          (some ("buy milk", false))).1)
serve_call-Answer_example =
    serve_call-Answer one_row_pool one_row_table text_binding (update_call "1" [])
      (some ("buy milk", false)) (one_row-OnPage (some ("buy milk", false)))

all_rows-IsListing : (d : Option (String × Bool)) → IsListing (stored_rows d) (all_rows d)
all_rows-IsListing none = record { order = tt; same = λ id. refl }
all_rows-IsListing (some entry) = record {
  order = tt;
  same = λ id. elim (Bool-cases (eqb_ℤ (pos 1) id)) [ inl e ↦ rw e refl | inr e ↦ rw e refl ];
}

one_row-Paged : Paged one_row_pool one_row_table
one_row-Paged = record {
  newest_first = all_rows;
  listing = all_rows-IsListing;
  on_page = λ limit offset d. refl;
}

walk-IsListing_example :
    (tasks : List Task) × IsListing (stored_rows (some ("tea", true))) tasks
    × (walk (service one_row_pool one_row_table) 20 (suc (length tasks)) 0 (some ("tea", true))
        ≡ some (ok tasks))
walk-IsListing_example =
    walk-IsListing one_row_pool one_row_table one_row-Paged 20 (omega arith) (omega arith)
      (some ("tea", true))
