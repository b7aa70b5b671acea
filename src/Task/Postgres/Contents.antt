-- ===== src/Task/Postgres/Contents.antt =====
-- What the repository relies on in Postgres: the five statements act on a table of rows by id.
use experiment_go.Prelude.{
  ℕ, ◌≡◌, ◌≢◌, ◌⊎◌, String, Bool, false, Option, none, some, List, [], ◌∷◌, if◌then◌else◌,
}
use experiment_go.Prelude.Int.{ℤ, eqb_ℤ}
use experiment_go.Prelude.Errors.{GoError, Result, ok, err, is_error, not_found, invalid_title}
use experiment_go.Task.{Task}
use experiment_go.Task.Postgres.{Pool, Rows, RowReply, row, no_rows, row_error}

-- The rows of a table, by id.
abbrev pub Rowset : Type 0
Rowset = ℤ → Option Task

abbrev pub Same : Rowset → Rowset → Type 0
Same before after = (j : ℤ) → after j ≡ before j

-- The row under `id` is `value`, every other row is as before.
abbrev pub Written : ℤ → Option Task → Rowset → Rowset → Type 0
Written id value before after = (j : ℤ) → after j ≡ (if eqb_ℤ id j then value else before j)

-- An error of the client: it wraps neither of the errors of the task package.
abbrev pub IsForeign : GoError → Type 0
IsForeign e = (is_error e not_found ≡ false) × (is_error e invalid_title ≡ false)

abbrev pub OnSelect : ℤ → RowReply → Rowset → Type 0
OnSelect id (row t) before = before id ≡ some t
OnSelect id no_rows before = before id ≡ none
OnSelect id (row_error e) before = IsForeign e

abbrev pub OnInsert : String → RowReply → Rowset → Rowset → Type 0
OnInsert title (row t) before after =
    (before t.id ≡ none) × (t.title ≡ title) × (t.done ≡ false) × Written t.id (some t) before after
OnInsert title no_rows before after = ⊥
OnInsert title (row_error e) before after = IsForeign e × Same before after

abbrev pub OnUpdate : String → Bool → ℤ → RowReply → Rowset → Rowset → Type 0
OnUpdate title done id (row t) before after =
    ((old : Task) × (before id ≡ some old) × (t.created_at ≡ old.created_at))
    × (t.id ≡ id)
    × (t.title ≡ title)
    × (t.done ≡ done)
    × Written id (some t) before after
OnUpdate title done id no_rows before after = (before id ≡ none) × Same before after
OnUpdate title done id (row_error e) before after = IsForeign e × Same before after

abbrev pub OnDelete : ℤ → Result ℕ → Rowset → Rowset → Type 0
OnDelete id (ok n) before after =
    ((n ≡ 0) × (before id ≡ none) × Same before after)
    ⊎ ((n ≡ 1) × (before id ≢ none) × Written id none before after)
OnDelete id (err e) before after = IsForeign e × Same before after

-- Of a page, every error is foreign: that of the query, of each row, and of the end.
abbrev pub AllForeign : List (Result Task) → Type 0
AllForeign [] = Unit
AllForeign (ok t ∷ scans) = AllForeign scans
AllForeign (err e ∷ scans) = IsForeign e × AllForeign scans

abbrev pub OnEnd : Option GoError → Type 0
OnEnd none = Unit
OnEnd (some e) = IsForeign e

abbrev pub OnPage : Result Rows → Type 0
OnPage (err e) = IsForeign e
OnPage (ok rows) = AllForeign rows.scans × OnEnd rows.end

-- The behaviour of the statements that the repository relies on. It assumes more than pgx promises
-- in one point: a statement that fails has changed nothing, where a connection can be lost after the
-- commit.
pub record Table {D : Type 0} (pool : Pool D) : Type 0 where
  pub stored : D → Rowset
  pub on_select : (id : ℤ) (d : D) → OnSelect id (pool.select_by_id id d) (stored d)
  pub on_insert :
      (title : String) (d : D)
      → OnInsert title (pool.insert title d).0 (stored d) (stored (pool.insert title d).1)
  pub on_update :
      (title : String) (done : Bool) (id : ℤ) (d : D)
      → OnUpdate title done id
          (pool.update_by_id title done id d).0
          (stored d)
          (stored (pool.update_by_id title done id d).1)
  pub on_delete :
      (id : ℤ) (d : D)
      → OnDelete id (pool.delete_by_id id d).0 (stored d) (stored (pool.delete_by_id id d).1)
