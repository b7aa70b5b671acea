-- ===== src/Tests/Routing.antt =====
-- Requests to a router with a task table that is empty, and gin on paths without parameters.
use experiment_go.Prelude.{
  ◌≡◌, ◌≢◌, refl, String, Bool, true, false, ◌&&◌, Option, none, some, List, [], ◌∷◌, ◌==◌,
  Bool-cases, inl, inr, if◌then◌else◌,
}
use experiment_go.Prelude.Int.{pos}
use experiment_go.Prelude.Errors.{lit, plain_error, err}
use experiment_go.Task.Postgres.{new_postgres_repository}
use experiment_go.HttpApi.Router.{
  Deps, Endpoint, live_probe, ready_probe, list_tasks, create_task, get_task, update_task,
  remove_task, burn_cpu, consume_push, Route, routes, Routed, handled, no_route, Request, Library,
  panicked, dispatch,
}
use experiment_go.HttpApi.Router.Exposed.{
  same_endpoint, leads_to, has_conflict, offered, routes-offered,
}
use experiment_go.HttpApi.Router.Dispatch.{dispatch-ne-panicked}
use experiment_go.Tests.Tasks.{one_row_pool, text_binding}

-- The first route with the method whose pattern is the path itself.
abbrev pub exact_match : List Route → String → String → Routed
exact_match [] method path = no_route
exact_match (r ∷ table) method path =
    if r.method == method && r.pattern == path
    then handled r.endpoint ""
    else exact_match table method path

pub same_endpoint_refl : (e : Endpoint) → same_endpoint e e ≡ true
same_endpoint_refl live_probe = refl
same_endpoint_refl ready_probe = refl
same_endpoint_refl list_tasks = refl
same_endpoint_refl create_task = refl
same_endpoint_refl get_task = refl
same_endpoint_refl update_task = refl
same_endpoint_refl remove_task = refl
same_endpoint_refl burn_cpu = refl
same_endpoint_refl consume_push = refl

pub endpoint_of : {a b : Endpoint} {i j : String} → handled a i ≡ handled b j → a ≡ b
endpoint_of h = cc

exact_match-IsSound :
    (table : List Route) (method path : String) (e : Endpoint) (id : String)
    → exact_match table method path ≡ handled e id
    → leads_to e table ≡ true
exact_match-IsSound [] method path e id h = absurd cc
exact_match-IsSound (r ∷ table) method path e id h =
    elim (Bool-cases (r.method == method && r.pattern == path)) [
      | inl hit ↦
          let same : r.endpoint ≡ e = endpoint_of (rw hit at h) in
          rw (same, same_endpoint_refl e) refl
      | inr miss ↦ elim (Bool-cases (same_endpoint r.endpoint e)) [
        | inl found ↦ rw found refl
        | inr other ↦ rw other (exact_match-IsSound table method path e id (rw miss at h))
      ]
    ]

abbrev pub gin : Library
gin = record {
  match_route = exact_match;
  binding = text_binding;
  write_errors = λ q r. if q.path == "/gone" then (lit "broken pipe" ∷ []) ∷ [] else [];
  unmarshal = λ body. err (plain_error (lit "EOF" ∷ []));
  query_ms = λ query. none;
  rounds = 6;
  clock = λ k. pos 0;
  now = pos 0;
}

abbrev pub api_role : Deps (Option (String × Bool))
unfolding new_postgres_repository
api_role = record {
  tasks = some (new_postgres_repository one_row_pool);
  db = some (λ w. none);
  version = "dev";
  prodlike = false;
  enable_burn = false;
  enable_ingest = false;
  ingest = none;
  verifier = none;
  quarantine = none;
}

abbrev pub creating : Request
creating = record {
  method = "POST";
  path = "/api/v1/tasks";
  raw_query = "";
  request_id = "";
  authorization = "";
  sent = 123 ∷ 125 ∷ [];
  broken = none;
}

routes-offered_example :
    (leads_to consume_push (routes api_role) ≡ offered api_role consume_push)
    × (has_conflict (routes api_role) ≡ false)
routes-offered_example = routes-offered api_role consume_push

dispatch-ne-panicked_example : (dispatch gin api_role creating none).0 ≢ panicked
unfolding api_role
dispatch-ne-panicked_example =
    dispatch-ne-panicked gin api_role creating none exact_match-IsSound (inl refl)

-- A client that has left before it is told that there is no such route.
abbrev leaving : Request
leaving = record creating { method = "GET"; path = "/gone"; request_id = "c0ffee" }
