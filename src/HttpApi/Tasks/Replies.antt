-- ===== src/HttpApi/Tasks/Replies.antt =====
-- What the task endpoints make of the reply of their statement.
use experiment_go.Prelude.{
  ℕ, ◌≡◌, ◌≢◌, ◌⊎◌, inl, inr, refl, String, Option, none, some, List, [], ◌∷◌, map, ap,
}
use experiment_go.Prelude.Int.{ℤ}
use experiment_go.Prelude.Text.{trim_space}
use experiment_go.Prelude.Text.Trim.{IsBlank}
use experiment_go.Prelude.Errors.{GoError, Result, ok, err}
use experiment_go.Task.{Task, UpdateParams, ListParams}
use experiment_go.Task.Postgres.{
  Pool, Rows, RowReply, row, no_rows, row_error, one_row, created_row, affected, scan_rows,
  read_rows,
}
use experiment_go.Task.Postgres.Contents.{
  Rowset, Same, IsForeign, AllForeign, OnEnd, OnPage, OnSelect, OnInsert, OnDelete, Table,
}
use experiment_go.Task.Postgres.Contents as Contents
use experiment_go.Task.Store.{service}
use experiment_go.HttpApi.Tasks.{Binding, fail, listed, found, created, removed}
use experiment_go.HttpApi.Tasks.Expected.{
  HasError, page_of, OnList, OnGet, OnCreate, OnUpdate, OnRemove,
}

-- An error that is foreign is answered by 500, whatever is said before it.
fail-IsForeign : (e : GoError) → IsForeign e → (fail e).status ≡ 500
unfolding fail
fail-IsForeign e h = rw (h.0, h.1) refl

-- What the loop over the rows makes of them.
abbrev Scan : List (Result Task) → Option GoError → Result (List Task) → Type 0
Scan scans end result =
    ((tasks : List Task) × (result ≡ ok tasks) × (scans ≡ map ok tasks) × (end ≡ none))
    ⊎ ((e : GoError) × (result ≡ err e) × IsForeign e × (HasError scans ⊎ (end ≢ none)))

scan_rows-Scan :
    (scans : List (Result Task)) (end : Option GoError)
    → AllForeign scans
    → OnEnd end
    → Scan scans end (scan_rows scans end)
unfolding scan_rows
scan_rows-Scan [] none f g = inl ([], refl, refl, refl)
scan_rows-Scan [] (some e) f g = inr (_, refl, g, inr cc)
scan_rows-Scan (err e ∷ scans) end f g = inr (_, refl, f.0, inl tt)
scan_rows-Scan (ok t ∷ scans) end f g = elim (scan_rows-Scan scans end f g) [
  | inl (tasks, s, all, no_end) ↦ inl (t ∷ tasks, rw s refl, ap (λ rest. ok t ∷ rest) all, no_end)
  | inr (e, s, foreign, why) ↦ inr (e, rw s refl, foreign, why)
]

module _ {D Q B : Type 0} (pool : Pool D) (table : Table pool) (binding : Binding Q B) where
  -- By the reply of the statement.
  pub select-OnGet :
      (id : ℤ) (d : D) (reply : RowReply)
      → pool.select_by_id id d ≡ reply
      → OnSelect id reply (table.stored d)
      → OnGet pool d
          (some id)
          (found (service pool table) binding (one_row "get task " id reply, d)).0
          (table.stored d)
          (table.stored (found (service pool table) binding (one_row "get task " id reply, d)).1)
  unfolding fail
  select-OnGet id d (row t) q h = inl (t, h, λ f. cc (f.1, q), refl, λ j. refl)
  select-OnGet id d no_rows q h = inr (inl (h, λ f. cc (f.1, q), (refl, λ j. refl)))
  select-OnGet id d (row_error e) q h = inr (inr ((e, q), (fail-IsForeign e h, λ j. refl)))

  pub insert-OnCreate :
      (title : String) (d d' : D) (reply : RowReply)
      → ¬ IsBlank title
      → (pool.insert (trim_space title) d).0 ≡ reply
      → OnInsert (trim_space title) reply (table.stored d) (table.stored d')
      → OnCreate pool d
          (ok title)
          (created (service pool table) binding (created_row reply, d')).0
          (table.stored d)
          (table.stored (created (service pool table) binding (created_row reply, d')).1)
  unfolding fail
  insert-OnCreate title d d' (row t) b q h =
      inl (t, b, h.1, h.2, h.0, λ f. cc (f.1, q), refl, refl, h.3)
  insert-OnCreate title d d' no_rows b q h = absurd h
  insert-OnCreate title d d' (row_error e) b q h =
      inr (inr (b, (e, q), (fail-IsForeign e h.0, h.1)))

  pub update-OnUpdate :
      (id : ℤ) (p : UpdateParams) (d d' : D) (reply : RowReply)
      → ¬ IsBlank p.title
      → (pool.update_by_id (trim_space p.title) p.done id d).0 ≡ reply
      → Contents.OnUpdate (trim_space p.title) p.done id reply (table.stored d) (table.stored d')
      → OnUpdate pool d
          (some id)
          (ok p)
          (found (service pool table) binding (one_row "update task " id reply, d')).0
          (table.stored d)
          (table.stored
            (found (service pool table) binding (one_row "update task " id reply, d')).1)
  unfolding fail
  update-OnUpdate id p d d' (row t) b q h =
      inl (t, b, h.2, h.3, h.1, λ absent. cc (h.0.1, absent), λ f. cc (f.1, q), refl, h.4)
  update-OnUpdate id p d d' no_rows b q h = inr (inl (b, h.0, λ f. cc (f.1, q), (refl, h.1)))
  update-OnUpdate id p d d' (row_error e) b q h =
      inr (inr (inr (b, (e, q), (fail-IsForeign e h.0, h.1))))

  pub delete-OnRemove :
      (id : ℤ) (d d' : D) (reply : Result ℕ)
      → (pool.delete_by_id id d).0 ≡ reply
      → OnDelete id reply (table.stored d) (table.stored d')
      → OnRemove pool d
          (some id)
          (removed (service pool table) binding (affected id reply, d')).0
          (table.stored d)
          (table.stored (removed (service pool table) binding (affected id reply, d')).1)
  unfolding fail
  delete-OnRemove id d d' (err e) q h = inr (inr ((e, q), (fail-IsForeign e h.0, h.1)))
  delete-OnRemove id d d' (ok n) q (inl h) = rw h.0 (inr (inl (h.1, λ f. cc (f.1, q), (refl, h.2))))
  delete-OnRemove id d d' (ok n) q (inr h) = rw h.0 (inl (h.1, λ f. cc (f.1, q), refl, h.2))

  pub page-OnList :
      (p : ListParams) (d : D) (page : Result Rows)
      → page_of pool d p ≡ page
      → OnPage page
      → OnList pool d
          (ok p)
          (listed (service pool table) binding (read_rows page, d)).0
          (table.stored d)
          (table.stored (listed (service pool table) binding (read_rows page, d)).1)
  unfolding fail
  page-OnList p d (err e) q h = inr (inl (e, q), (fail-IsForeign e h, λ j. refl))
  page-OnList p d (ok rows) q h = elim (scan_rows-Scan rows.scans rows.end h.0 h.1) [
    | inl (tasks, s, all, no_end) ↦ rw s (inl (tasks, (rows, q, all, no_end), refl, λ j. refl))
    | inr (e, s, foreign, why) ↦
        rw s (inr (inr (rows, q, why), (fail-IsForeign e foreign, λ j. refl)))
  ]
