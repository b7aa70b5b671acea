-- ===== src/HttpApi/Tasks/Lookup.antt =====
-- What a GET answers after a task was created or removed.
use Prim.Native.String.{◌++◌}
use experiment_go.Prelude.{
  ℕ, ◌<◌, ◌^◌, ◌≡◌, ◌⊎◌, inl, inr, refl, true, String, Option, none, some, [], ◌∷◌, arith, ap, sym,
  subst, ◌∙◌,
}
use experiment_go.Prelude.Int.{ℤ, pos, eqb_ℤ}
use experiment_go.Prelude.Text.Decimal.{format_int, parse_int-format_int}
use experiment_go.Prelude.Errors.{Result, ok, err}
use experiment_go.Task.{Task, UpdateParams}
use experiment_go.Task.Postgres.{Pool}
use experiment_go.Task.Postgres.Contents.{Rowset, Written, Table}
use experiment_go.Task.Store.{create, Promise, service, service-Promise, call}
use experiment_go.Task.Store as Store
use experiment_go.HttpApi.Response.{Response, content, respond_data}
use experiment_go.HttpApi.Tasks.{
  Payload, Binding, fail, parse_id, location_prefix, created, handle_get,
}
use experiment_go.HttpApi.Tasks.Expected.{SelectFails, OnGet, OnUpdate, OnRemove}
use experiment_go.HttpApi.Tasks.Table.{on_get-OnGet}

-- BIGSERIAL: a positive int64.
abbrev pub IsSerial : ℤ → Type 0
IsSerial id = (n : ℕ) × (id ≡ pos n) × (0 < n) × (n < 2 ^ 63)

parse_id-format_int : (id : ℤ) → IsSerial id → parse_id (format_int id) ≡ some id
unfolding parse_id
parse_id-format_int id (n, key, positive, fits) =
    rw (key, parse_int-format_int n fits) (ground arith)

eqb_ℤ_refl : (id : ℤ) → eqb_ℤ id id ≡ true
eqb_ℤ_refl id = ground arith

Written-at :
    (id : ℤ) (value : Option Task) (before after : Rowset)
    → Written id value before after
    → after id ≡ value
Written-at id value before after w = rw (w id, eqb_ℤ_refl id) refl

module _ {D Q B : Type 0} (pool : Pool D) (table : Table pool) (binding : Binding Q B) where
  -- The task is sent; or the statement behind a get of it fails, and then the status is 500.
  abbrev pub Shows : Task → D → Response Payload → Type 0
  Shows t d r =
      ((¬ SelectFails pool d t.id) × (r ≡ respond_data 200 (Payload.one t)))
      ⊎ (SelectFails pool d t.id × (r.status ≡ 500))

  -- The task is missing; or the statement behind a get of it fails, and then the status is 500.
  abbrev pub Misses : ℤ → D → Response Payload → Type 0
  Misses id d r =
      ((¬ SelectFails pool d id) × (r.status ≡ 404)) ⊎ (SelectFails pool d id × (r.status ≡ 500))

  OnGet-Shows :
      (t : Task) (d : D) (r : Response Payload) (before after : Rowset)
      → before t.id ≡ some t
      → OnGet pool d (some t.id) r before after
      → Shows t d r
  OnGet-Shows t d r before after there (inl (u, found, good, sent, same)) =
      let same_task : u ≡ t = ground arith in
      inl (good, sent ∙ ap (λ x. respond_data 200 (Payload.one x)) same_task)
  OnGet-Shows t d r before after there (inr (inl h)) = absurd (cc (there, h.0))
  OnGet-Shows t d r before after there (inr (inr h)) = inr (h.0, h.1.0)

  OnGet-Misses :
      (id : ℤ) (d : D) (r : Response Payload) (before after : Rowset)
      → before id ≡ none
      → OnGet pool d (some id) r before after
      → Misses id d r
  OnGet-Misses id d r before after absent (inl h) = absurd (cc (h.1, absent))
  OnGet-Misses id d r before after absent (inr (inl h)) = inl (h.1, h.2.0)
  OnGet-Misses id d r before after absent (inr (inr h)) = inr (h.0, h.1.0)

  abbrev pub answer_get : String → D → Response Payload
  answer_get param d = (handle_get (service pool table) binding param d).0

  get-OnGet :
      (param : String) (id : ℤ) (d : D)
      → parse_id param ≡ some id
      → OnGet pool d
          (some id)
          (answer_get param d)
          (table.stored d)
          (table.stored (handle_get (service pool table) binding param d).1)
  unfolding handle_get
  get-OnGet param id d parsed =
      let (r, d') = handle_get (service pool table) binding param d in
      subst (λ o. OnGet pool d o r (table.stored d) (table.stored d')) parsed
        (on_get-OnGet pool table binding (parse_id param) d)

  -- A get of a task that is stored under its id, and of one that is not.
  shows :
      (param : String) (t : Task) (d : D)
      → parse_id param ≡ some t.id
      → table.stored d t.id ≡ some t
      → Shows t d (answer_get param d)
  shows param t d parsed there =
      OnGet-Shows t d (answer_get param d) (table.stored d)
        (table.stored (handle_get (service pool table) binding param d).1) there
        (get-OnGet param t.id d parsed)

  -- What is created under an id can be got under it.
  abbrev pub Created : Response Payload × D → Type 0
  Created (r, d) =
      (t : Task) × (r.body ≡ content (Payload.one t))
      × (r.headers ≡ ("Location", location_prefix ++ format_int t.id) ∷ [])
      × Shows t d (answer_get (format_int t.id) d)

  pub created-Created :
      (title : String) (result : Result Task × D) (before : Rowset)
      → ((t : Task) → result.0 ≡ ok t → IsSerial t.id)
      → Promise (create title) (Store.one result.0) before (table.stored result.1)
      → (created (service pool table) binding result).0.status < 300
      → Created (created (service pool table) binding result)
  unfolding fail
  created-Created title (err e, d) before serial h status = absurd (ground (arith, status))
  created-Created title (ok t, d) before serial h status = (
    t,
    refl,
    refl,
    shows (format_int t.id) t d (parse_id-format_int t.id (serial t refl))
        (Written-at t.id (some t) before (table.stored d) h.4),
  )

  -- What is removed under an id is not got under it.
  abbrev pub Gone : String → D → Type 0
  Gone param d = (id : ℤ) × (parse_id param ≡ some id) × Misses id d (answer_get param d)

  pub OnRemove-Gone :
      (param : String) (o : Option ℤ) (r : Response Payload) (before : Rowset) (d d' : D)
      → parse_id param ≡ o
      → OnRemove pool d o r before (table.stored d')
      → r.status < 300
      → Gone param d'
  OnRemove-Gone param none r before d d' parsed h status = absurd (omega (arith, status, h.0))
  OnRemove-Gone param (some id) r before d d' parsed (inl h) status = (
    id,
    parsed,
    OnGet-Misses id d' (answer_get param d') (table.stored d')
        (table.stored (handle_get (service pool table) binding param d').1)
        (Written-at id none before (table.stored d') h.3) (get-OnGet param id d' parsed),
  )
  OnRemove-Gone param (some id) r before d d' parsed (inr (inl h)) status =
      absurd (omega (arith, status, h.2.0))
  OnRemove-Gone param (some id) r before d d' parsed (inr (inr h)) status =
      absurd (omega (arith, status, h.1.0))

  -- What is changed under an id is got under it as it was sent.
  abbrev pub Updated : String → Response Payload × D → Type 0
  Updated param (r, d) =
      (t : Task) × (parse_id param ≡ some t.id)
      × (r ≡ respond_data 200 (Payload.one t))
      × Shows t d (answer_get param d)

  pub OnUpdate-Updated :
      (param : String) (o : Option ℤ) (bound : Result UpdateParams) (r : Response Payload)
      (before : Rowset) (d d' : D)
      → parse_id param ≡ o
      → OnUpdate pool d o bound r before (table.stored d')
      → r.status < 300
      → Updated param (r, d')
  OnUpdate-Updated param none bound r before d d' parsed h good = absurd (omega (arith, good, h.0))
  OnUpdate-Updated param (some id) (err e) r before d d' parsed h good =
      absurd (omega (arith, good, h.0))
  OnUpdate-Updated param (some id) (ok p) r before d d' parsed (inl h) good =
      let named : parse_id param ≡ some h.0.id = parsed ∙ ap some (sym h.4) in
      let there : table.stored d' h.0.id ≡ some h.0 =
        ap (table.stored d') h.4 ∙ Written-at id (some h.0) before (table.stored d') h.8 in
      (h.0, named, h.7, shows param h.0 d' named there)
  OnUpdate-Updated param (some id) (ok p) r before d d' parsed (inr (inl h)) good =
      absurd (omega (arith, good, h.3.0))
  OnUpdate-Updated param (some id) (ok p) r before d d' parsed (inr (inr (inl h))) good =
      absurd (omega (arith, good, h.1.0))
  OnUpdate-Updated param (some id) (ok p) r before d d' parsed (inr (inr (inr h))) good =
      absurd (omega (arith, good, h.2.0))
