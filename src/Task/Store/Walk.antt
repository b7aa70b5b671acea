-- ===== src/Task/Store/Walk.antt =====
-- Reading all tasks page by page, over the service and the Postgres repository.
use experiment_go.Prelude.{
  ℕ, zero, suc, ◌+◌, ◌≤◌, ◌<◌, ◌≡◌, refl, sym, ap, ◌∙◌, Option, none, some, List, [], ◌∷◌, ◌++◌,
  map, length, take, drop, take-append-drop, take-nil, drop-drop, length-drop, arith, if◌then◌else◌,
}
use experiment_go.Prelude.Int.{ℤ, pos, eqb_ℤ, ◌<ℤ◌}
use experiment_go.Prelude.Errors.{Result, ok, err}
use experiment_go.Task.{Task, Repository, new_service}
use experiment_go.Task.Postgres.{
  Pool, page_limit, page_offset, scan_rows, list_tasks, new_postgres_repository,
}
use experiment_go.Task.Postgres.Contents.{Rowset, Table}
use experiment_go.Task.Store.{service}

-- Each id is larger than the next.
abbrev pub Descending : List Task → Type 0
Descending [] = Unit
Descending (t ∷ []) = Unit
Descending (t ∷ u ∷ tasks) = (u.id <ℤ t.id) × Descending (u ∷ tasks)

abbrev pub find_id : ℤ → List Task → Option Task
find_id id [] = none
find_id id (t ∷ tasks) = if eqb_ℤ t.id id then some t else find_id id tasks

-- The list holds the rows of the table, each once, by descending ids.
pub record IsListing (rows : Rowset) (tasks : List Task) : Type 0 where
  pub order : Descending tasks
  pub same : (id : ℤ) → rows id ≡ find_id id tasks

-- What SELECT … ORDER BY id DESC LIMIT l OFFSET o gives if it does not fail.
pub record Paged {D : Type 0} (pool : Pool D) (table : Table pool) : Type 0 where
  pub newest_first : D → List Task
  pub listing : (d : D) → IsListing (table.stored d) (newest_first d)
  pub on_page :
      (limit offset : ℕ) (d : D)
      → pool.select_page (pos limit) (pos offset) d
        ≡ ok (record { scans = map ok (take limit (drop offset (newest_first d))); end = none })

module _ {D : Type 0} (svc : Repository D) (size : ℕ) where
  abbrev in_front : List Task → Option (Result (List Task)) → Option (Result (List Task))
  in_front page none = none
  in_front page (some (err e)) = some (err e)
  in_front page (some (ok tasks)) = some (ok (page ++ tasks))

  abbrev after_page : Result (List Task) → Option (Result (List Task)) → Option (Result (List Task))
  after_page (err e) rest = some (err e)
  after_page (ok []) rest = some (ok [])
  after_page (ok (t ∷ page)) rest = in_front (t ∷ page) rest

  -- A client that asks for page after page of a size, from an offset on, until one is empty; `none`
  -- if the pages allowed are used up.
  unfoldable pub walk : ℕ → ℕ → D → Option (Result (List Task))
  walk zero offset d = none
  walk (suc more) offset d =
      let (page, d') = svc.list (record { limit = pos size; offset = pos offset }) d in
      let rest = walk more (offset + size) d' in after_page page rest

module _ {D : Type 0} (pool : Pool D) (table : Table pool) (paged : Paged pool table) where
  scan_rows-ok : (rows : List Task) → scan_rows (map ok rows) none ≡ ok rows
  unfolding scan_rows
  scan_rows-ok [] = refl
  scan_rows-ok (t ∷ rows) = rw (scan_rows-ok rows) refl

  module _ (size : ℕ) (positive : 0 < size) (bounded : size ≤ 100) where
    abbrev page_at : ℕ → D → List Task
    page_at offset d = take size (drop offset (paged.newest_first d))

    limit_kept : page_limit (pos size) ≡ pos size
    unfolding page_limit
    limit_kept = ground arith

    offset_kept : (offset : ℕ) → page_offset (pos offset) ≡ pos offset
    unfolding page_offset
    offset_kept offset = ground arith

    list_tasks-page :
        (offset : ℕ) (d : D)
        → list_tasks pool (record { limit = pos size; offset = pos offset }) d
          ≡ (ok (page_at offset d), d)
    unfolding list_tasks
    list_tasks-page offset d =
        rw
          (
            limit_kept,
            offset_kept offset,
            paged.on_page size offset d,
            scan_rows-ok (page_at offset d),
          )
          refl

    list-page :
        (offset : ℕ) (d : D)
        → (service pool table).list (record { limit = pos size; offset = pos offset }) d
          ≡ (ok (page_at offset d), d)
    unfolding new_service new_postgres_repository
    list-page offset d = list_tasks-page offset d

    -- Behind a page, given what the pages after it give.
    after_page-rows :
        (page rows : List Task) (rest : Option (Result (List Task)))
        → page ++ drop size rows ≡ rows
        → (page ≡ [] → rows ≡ [])
        → (0 < length rows → rest ≡ some (ok (drop size rows)))
        → after_page (service pool table) size (ok page) rest ≡ some (ok rows)
    after_page-rows [] rows rest e last k = ap (λ r. some (ok r)) (sym (last refl))
    after_page-rows (t ∷ page) rows rest e last k =
        let more_rows : 0 < length rows = omega (arith, ap length e) in
        ap (in_front (service pool table) size (t ∷ page)) (k more_rows) ∙ ap (λ r. some (ok r)) e

    walk-from :
        (pages offset : ℕ) (d : D)
        → length (drop offset (paged.newest_first d)) < pages
        → walk (service pool table) size pages offset d
          ≡ some (ok (drop offset (paged.newest_first d)))
    unfolding walk
    walk-from zero offset d short = absurd (omega (arith, short))
    walk-from (suc more) offset d short =
        let rows = drop offset (paged.newest_first d) in
        rw (list-page offset d) (
          after_page-rows (take size rows) rows
            (walk (service pool table) size more (offset + size) d) (take-append-drop size rows)
            (take-nil size rows positive)
            (λ left.
              walk-from more (offset + size) d (
                omega (
                  arith,
                  short,
                  left,
                  ap length (drop-drop size offset (paged.newest_first d)),
                  length-drop {0} size rows,
                ))
              ∙ ap (λ r. some (ok r)) (sym (drop-drop size offset (paged.newest_first d)))))

    -- While the table does not change, a client that asks the service for page after page, of any size
    -- from 1 to 100, from offset 0 on, and stops at the first page that is empty, reads every task of
    -- the table exactly once, by descending ids, in at most one request more than there are tasks. For
    -- the statement of List, Postgres is taken to give the rows by descending ids, without the first
    -- $2 and up to $1 of the rest.
    pub walk-IsListing :
        (d : D)
        → (tasks : List Task) × IsListing (table.stored d) tasks
          × (walk (service pool table) size (suc (length tasks)) 0 d ≡ some (ok tasks))
    walk-IsListing d =
        let rows = paged.newest_first d in
        (rows, paged.listing d, walk-from (suc (length rows)) 0 d (omega arith))
