-- ===== src/HttpApi/Middleware/ApiRole.antt =====
-- The API role, request by request: the router with the handlers over the service and the Postgres
-- repository.
use experiment_go.Prelude.{
  ◌≡◌, refl, String, true, false, Option, none, some, List, [], ◌∷◌, arith, subst,
}
use experiment_go.Prelude.Int.{ℤ}
use experiment_go.Task.Postgres.{Pool}
use experiment_go.Task.Postgres.Contents.{Rowset, Same, Table}
use experiment_go.Task.Store.{service}
use experiment_go.Task.Store.Tidy.{AllTidy}
use experiment_go.HttpApi.Response.{Response}
use experiment_go.HttpApi.Tasks.{parse_id, handle_get, handle_create, handle_update, handle_remove}
use experiment_go.HttpApi.Tasks.Expected.{
  list_call, get_call, create_call, update_call, remove_call,
}
use experiment_go.HttpApi.Tasks.Table.{
  serve_call, list_call-Same, on_get-OnGet, on_create-OnCreate, on_update-OnUpdate,
  on_remove-OnRemove,
}
use experiment_go.HttpApi.Router.{
  Deps, Endpoint, live_probe, ready_probe, list_tasks, create_task, get_task, update_task,
  remove_task, burn_cpu, consume_push, routes, Routed, handled, no_route, no_method, Request,
  Library, Outcome, answered, panicked, unfinished, burned, handle, on_routed, dispatch,
}
use experiment_go.HttpApi.Middleware.{
  Served, set_request_id, request_logger, recovery, serve_request,
}
use experiment_go.HttpApi.Router.Effects.{
  serves, RespectsMethods, Effect, Same-Effect, OnGet-Effect, OnCreate-Effect, OnUpdate-Effect,
  OnRemove-Effect,
}

module _ {D : Type 0} (pool : Pool D) (table : Table pool) (lib : Library) (d : Deps D) where
  -- The API role: the tasks are served, and the push endpoint is off.
  abbrev pub api : Deps D
  api = record d { tasks = some (service pool table); enable_ingest = false }

  -- What a handler leaves behind; without an answer the table is as it was.
  abbrev pub Left : (method : String) → Rowset → Outcome × D → Type 0
  Left method before (answered r, w) = Effect method r.status before (table.stored w)
  Left method before (panicked, w) = Same before (table.stored w)
  Left method before (unfinished, w) = Same before (table.stored w)

  burned-Left :
      (method : String) (r : Option (Response ℤ)) (w : D)
      → Left method (table.stored w) (burned r, w)
  burned-Left method none w = λ j. refl
  burned-Left method (some r) w =
      Same-Effect method r.status (table.stored w) (table.stored w) (λ j. refl)

  -- The handlers that no GET leads to.
  abbrev Changes : Endpoint → Type 0
  Changes create_task = Unit
  Changes update_task = Unit
  Changes remove_task = Unit
  Changes _ = ⊥

  serves-get : (e : Endpoint) → Changes e → serves "GET" e (routes api) ≡ false
  unfolding routes
  serves-get create_task h = ground arith
  serves-get update_task h = ground arith
  serves-get remove_task h = ground arith
  serves-get live_probe h = absurd h
  serves-get ready_probe h = absurd h
  serves-get list_tasks h = absurd h
  serves-get get_task h = absurd h
  serves-get burn_cpu h = absurd h
  serves-get consume_push h = absurd h

  changing :
      (method : String) (e : Endpoint)
      → Changes e
      → serves method e (routes api) ≡ true
      → ¬ (method ≡ "GET")
  changing method e h served get =
      absurd (cc (subst (λ m. serves m e (routes api) ≡ true) get served, serves-get e h))

  -- The push endpoint is off.
  serves-consume_push : (method : String) → serves method consume_push (routes api) ≡ false
  unfolding routes
  serves-consume_push method = ground arith

  handle-Left :
      (e : Endpoint) (id : String) (q : Request) (w : D)
      → serves q.method e (routes api) ≡ true
      → Left q.method (table.stored w) (handle lib api e id q w)
  unfolding handle serve_call handle_get handle_create handle_update handle_remove
  handle-Left live_probe id q w h =
      Same-Effect q.method _ (table.stored w) (table.stored w) (λ j. refl)
  handle-Left ready_probe id q w h =
      Same-Effect q.method _ (table.stored w) (table.stored w) (λ j. refl)
  handle-Left burn_cpu id q w h = burned-Left q.method _ w
  handle-Left list_tasks id q w h =
      let (r, w') = serve_call pool table lib.binding (list_call q.raw_query) w in
      Same-Effect q.method r.status (table.stored w) (table.stored w')
        (list_call-Same pool table lib.binding q.raw_query w)
  handle-Left get_task id q w h =
      let (r, w') = serve_call pool table lib.binding (get_call id) w in
      OnGet-Effect pool w q.method r (table.stored w) (table.stored w') (parse_id id)
        (on_get-OnGet pool table lib.binding (parse_id id) w)
  handle-Left create_task id q w h =
      let (r, w') = serve_call pool table lib.binding (create_call q.sent) w in
      OnCreate-Effect pool w q.method r (table.stored w) (table.stored w')
        (changing q.method create_task tt h) (lib.binding.create_request q.sent)
        (on_create-OnCreate pool table lib.binding (lib.binding.create_request q.sent) w)
  handle-Left update_task id q w h =
      let (r, w') = serve_call pool table lib.binding (update_call id q.sent) w in
      OnUpdate-Effect pool w q.method r (table.stored w) (table.stored w')
        (changing q.method update_task tt h) (parse_id id) (lib.binding.update_request q.sent)
        (on_update-OnUpdate pool table lib.binding (parse_id id) q.sent w)
  handle-Left remove_task id q w h =
      let (r, w') = serve_call pool table lib.binding (remove_call id) w in
      OnRemove-Effect pool w q.method r (table.stored w) (table.stored w')
        (changing q.method remove_task tt h) (parse_id id)
        (on_remove-OnRemove pool table lib.binding (parse_id id) w)
  handle-Left consume_push id q w h = absurd (cc (h, serves-consume_push q.method))

  module _ (respects : RespectsMethods lib) where
    on_routed-Left :
        (o : Routed) (q : Request) (w : D)
        → lib.match_route (routes api) q.method q.path ≡ o
        → Left q.method (table.stored w) (on_routed lib api o q w)
    on_routed-Left (handled e id) q w h =
        handle-Left e id q w (respects (routes api) q.method q.path e id h)
    on_routed-Left no_route q w h =
        Same-Effect q.method 404 (table.stored w) (table.stored w) (λ j. refl)
    on_routed-Left no_method q w h =
        Same-Effect q.method 405 (table.stored w) (table.stored w) (λ j. refl)

    dispatch-Left : (q : Request) (w : D) → Left q.method (table.stored w) (dispatch lib api q w)
    unfolding dispatch
    dispatch-Left q w = on_routed-Left (lib.match_route (routes api) q.method q.path) q w refl

  -- What is served does to the table.
  abbrev pub ServedEffect : (method : String) → Rowset → Option (Served D) → Type 0
  ServedEffect method before none = Unit
  ServedEffect method before (some s) =
      Effect method s.response.status before (table.stored s.world)

  chain-Effect :
      (fresh : String) (q : Request) (before : Rowset) (r : Outcome × D)
      → Left q.method before r
      → ServedEffect q.method before
          (set_request_id fresh q (λ id. request_logger id q (recovery lib id q r)))
  chain-Effect fresh q before (answered r, w) h = h
  chain-Effect fresh q before (panicked, w) h = Same-Effect q.method 500 before (table.stored w) h
  chain-Effect fresh q before (unfinished, w) h = tt

  -- In the API role, over a database that acts as a table of rows by id, and with gin keeping to the
  -- methods of the routes, every request that is served, whatever its path, headers, query and body,
  -- and also one whose handler panics, obeys this: an answer with a status from 300 on has left the
  -- table as it was, a GET has left it as it was whatever the answer, and if all titles were tidy,
  -- they still are.
  pub serve_request-Effect :
      (fresh : String) (q : Request) (w : D)
      → RespectsMethods lib
      → ServedEffect q.method (table.stored w) (serve_request lib api fresh q w)
  unfolding serve_request
  serve_request-Effect fresh q w respects =
      chain-Effect fresh q (table.stored w) (dispatch lib api q w) (dispatch-Left respects q w)

  -- Requests one after the other, each with the id that uuid.NewString would give it. A burn that
  -- does not end in the rounds that are allowed leaves the database as it was.
  abbrev pub world_of : D → Option (Served D) → D
  world_of w none = w
  world_of w (some s) = s.world

  unfoldable pub serve_all : List (String × Request) → D → D
  serve_all [] w = w
  serve_all ((fresh, q) ∷ requests) w =
      serve_all requests (world_of w (serve_request lib api fresh q w))

  world_of-AllTidy :
      (method : String) (w : D) (s : Option (Served D))
      → ServedEffect method (table.stored w) s
      → AllTidy (table.stored w)
      → AllTidy (table.stored (world_of w s))
  world_of-AllTidy method w none h k = k
  world_of-AllTidy method w (some s) h k = h.tidy k

  -- From a table whose titles are all tidy, no sequence of HTTP requests to the API role, whatever
  -- they ask for and carry, leaves a title in the table that is blank or surrounded by white space.
  pub serve_all-AllTidy :
      (requests : List (String × Request)) (w : D)
      → RespectsMethods lib
      → AllTidy (table.stored w)
      → AllTidy (table.stored (serve_all requests w))
  unfolding serve_all
  serve_all-AllTidy [] w respects h = h
  serve_all-AllTidy ((fresh, q) ∷ requests) w respects h =
      let s = serve_request lib api fresh q w in
      serve_all-AllTidy requests (world_of w s) respects
        (world_of-AllTidy q.method w s (serve_request-Effect fresh q w respects) h)
