-- ===== src/Task/Store/Tidy.antt =====
-- No title in the table is blank or surrounded by white space.
use experiment_go.Prelude.{
  ◌≡◌, subst, String, Option, none, some, List, [], ◌∷◌, arith, Bool-cases, inl, inr,
}
use experiment_go.Prelude.Int.{ℤ, eqb_ℤ}
use experiment_go.Prelude.Errors.{ok, err}
use experiment_go.Prelude.Text.{trim_space}
use experiment_go.Prelude.Text.Trim.{IsBlank}
use experiment_go.Task.{Task}
use experiment_go.Task.Titles.{IsTidy, trim_space-IsTidy}
use experiment_go.Task.Postgres.{Pool}
use experiment_go.Task.Postgres.Contents.{Rowset, Same, Written, Table}
use experiment_go.Task.Store.{
  Request, list, get, create, update, delete, Outcome, many, one, gone, call, Promise, service,
  service-Promise,
}

-- Every stored title is tidy.
abbrev pub AllTidy : Rowset → Type 0
AllTidy rows = (id : ℤ) (t : Task) → rows id ≡ some t → IsTidy t.title

pub Same-AllTidy : (before after : Rowset) → Same before after → AllTidy before → AllTidy after
Same-AllTidy before after s h id t e = h id t (rw s at e)

pub Written-AllTidy :
    (key : ℤ) (value : Option Task) (before after : Rowset)
    → ((t : Task) → value ≡ some t → IsTidy t.title)
    → Written key value before after
    → AllTidy before
    → AllTidy after
Written-AllTidy key value before after v w h id t e = elim (Bool-cases (eqb_ℤ key id)) [
  | inl same ↦ v t (rw (w id, same) at e)
  | inr other ↦ h id t (rw (w id, other) at e)
]

pub titled :
    (t : Task) (title : String)
    → ¬ IsBlank title
    → t.title ≡ trim_space title
    → (u : Task) → some t ≡ some u
    → IsTidy u.title
titled t title b e u same =
    let moved : trim_space title ≡ u.title = ground arith in
    subst IsTidy moved (trim_space-IsTidy title b)

Promise-AllTidy :
    (r : Request) (o : Outcome) (before after : Rowset)
    → Promise r o before after
    → AllTidy before
    → AllTidy after
Promise-AllTidy (list p) (many r) before after h = Same-AllTidy before after h
Promise-AllTidy (get id) (one (ok t)) before after h = Same-AllTidy before after h.1
Promise-AllTidy (get id) (one (err e)) before after h = Same-AllTidy before after h.2
Promise-AllTidy (create title) (one (ok t)) before after h =
    Written-AllTidy t.id (some t) before after (titled t title h.0 h.1) h.4
Promise-AllTidy (create title) (one (err e)) before after h = Same-AllTidy before after h.2
Promise-AllTidy (update id p) (one (ok t)) before after h =
    Written-AllTidy id (some t) before after (titled t p.title h.0 h.1) h.5
Promise-AllTidy (update id p) (one (err e)) before after h = Same-AllTidy before after h.2
Promise-AllTidy (delete id) (gone none) before after h =
    Written-AllTidy id none before after (λ t e. cc) h.1
Promise-AllTidy (delete id) (gone (some e)) before after h = Same-AllTidy before after h.2
Promise-AllTidy _ _ before after h = absurd h

module _ {D : Type 0} (pool : Pool D) (table : Table pool) where
  -- The database after a sequence of calls, failing or not.
  unfoldable pub serve : List Request → D → D
  serve [] d = d
  serve (r ∷ requests) d = serve requests (call (service pool table) r d).1

  -- From a table whose titles are all tidy, no sequence of calls, whatever titles they carry, leaves
  -- a title in the table that is blank or surrounded by white space.
  pub serve-AllTidy :
      (requests : List Request) (d : D)
      → AllTidy (table.stored d)
      → AllTidy (table.stored (serve requests d))
  unfolding serve
  serve-AllTidy [] d h = h
  serve-AllTidy (r ∷ requests) d h =
      let (o, d') = call (service pool table) r d in
      serve-AllTidy requests d'
        (Promise-AllTidy r o (table.stored d) (table.stored d') (service-Promise pool table r d) h)
