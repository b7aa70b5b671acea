-- ===== src/HttpApi/Router.antt =====
-- internal/httpapi/router.go: the route table by role, and the handlers behind it. The matching of
-- paths against patterns is gin's, a parameter.
pub mod Exposed
pub mod Dispatch
pub mod Effects
use experiment_go.Prelude.{
  ℕ, String, Bool, true, false, Option, none, some, List, [], ◌∷◌, ◌++◌, if◌then◌else◌,
}
use experiment_go.Prelude.Int.{ℤ}
use experiment_go.Prelude.Errors.{GoError, Message, Result, lit}
use experiment_go.Consumption.{Delivery}
use experiment_go.Task.{Repository}
use experiment_go.HttpApi.Response.{Body, Response, empty, content, failure, respond_error}
use experiment_go.HttpApi.Ingest.{Push, Handler, consume}
use experiment_go.HttpApi.Tasks.{
  Payload, Binding, handle_list, handle_get, handle_create, handle_update, handle_remove,
}
use experiment_go.HttpApi.Health.{Fields, HealthHandler, live, ready}
use experiment_go.HttpApi.Burn.{burn}

-- Deps, on a world `W`. A nil interface is `none`.
pub record Deps (W : Type 0) : Type 0 where
  pub tasks : Option (Repository W)
  pub db : Option (W → Option GoError)
  pub version : String
  pub prodlike : Bool
  pub enable_burn : Bool
  pub enable_ingest : Bool
  pub ingest : Option (Delivery → W → Option GoError × (ℕ × W))
  pub verifier : Option (String → Option GoError)
  pub quarantine : Option (String → List ℕ → Message → W → Option GoError × W)

-- The handlers.
pub data Endpoint : Type 0 where
  live_probe ready_probe : Endpoint
  list_tasks create_task get_task update_task remove_task : Endpoint
  burn_cpu consume_push : Endpoint

pub record Route : Type 0 where
  pub method : String
  pub pattern : String
  pub endpoint : Endpoint

abbrev pub route : String → String → Endpoint → Route
route method pattern endpoint = record { method = method; pattern = pattern; endpoint = endpoint }

abbrev pub task_routes : {W : Type 0} → Option (Repository W) → List Route
task_routes none = []
task_routes (some svc) =
    route "GET" "/api/v1/tasks" list_tasks
    ∷ route "POST" "/api/v1/tasks" create_task
    ∷ route "GET" "/api/v1/tasks/:id" get_task
    ∷ route "PUT" "/api/v1/tasks/:id" update_task
    ∷ route "DELETE" "/api/v1/tasks/:id" remove_task
    ∷ []

-- NewRouter: the routes in the order of their registration.
unfoldable pub routes : {W : Type 0} → Deps W → List Route
routes d =
    (route "GET" "/healthz" live_probe ∷ route "GET" "/readyz" ready_probe ∷ [])
    ++ (task_routes d.tasks
        ++ ((if d.enable_burn then route "GET" "/api/v1/burn" burn_cpu ∷ [] else [])
            ++ (if d.enable_ingest
                then route "POST" "/internal/pubsub/consumption" consume_push ∷ []
                else [])))

-- What gin makes of a method and a path: a registered handler with the parameter :id, or NoRoute, or
-- NoMethod, which HandleMethodNotAllowed turns on.
pub data Routed : Type 0 where
  handled : Endpoint → String → Routed
  no_route no_method : Routed

-- A request, with the two headers that the service reads.
pub record Request : Type 0 where
  pub method : String
  pub path : String
  pub raw_query : String
  pub request_id : String
  pub authorization : String
  pub sent : List ℕ
  pub broken : Option GoError

-- The bodies that the handlers send.
pub data Sent : Type 0 where
  tasks : Payload → Sent
  fields : Fields → Sent
  iterations : ℤ → Sent

-- gin's matching and binding, the errors that gin attaches to its context when it cannot write a
-- response to the client, json.Unmarshal of an envelope, the query parameter ms, and the clock of the
-- burn loop with the rounds that are allowed for it.
pub record Library : Type 0 where
  pub match_route : List Route → String → String → Routed
  pub binding : Binding String (List ℕ)
  pub write_errors : Request → Response Sent → List Message
  pub unmarshal : List ℕ → Result Delivery
  pub query_ms : String → Option String
  pub rounds : ℕ
  pub clock : ℕ → ℤ
  pub now : ℤ

-- A handler answers, or panics, or the rounds allowed for a burn are used up.
pub data Outcome : Type 0 where
  answered : Response Sent → Outcome
  panicked : Outcome
  unfinished : Outcome

abbrev pub body_as : {A B : Type 0} → (A → B) → Body A → Body B
body_as f empty = empty
body_as f (content a) = content (f a)
body_as f (failure message) = failure message

abbrev pub answer_as : {A : Type 0} → (A → Sent) → Response A → Outcome
answer_as f r =
    answered (record { status = r.status; body = body_as f r.body; headers = r.headers })

abbrev no_content : ⊥ → Sent
no_content x = absurd x

abbrev pub burned : Option (Response ℤ) → Outcome
burned none = unfinished
burned (some r) = answer_as iterations r

module _ {W : Type 0} (lib : Library) (d : Deps W) where
  abbrev with_tasks :
      Option (Repository W) → (Repository W → W → Response Payload × W) → W → Outcome × W
  with_tasks none f w = (panicked, w)
  with_tasks (some svc) f w = let (r, w') = f svc w in (answer_as tasks r, w')

  abbrev push_of : Request → Push
  push_of q = record { authorization = q.authorization; sent = q.sent; broken = q.broken }

  -- The ingest handler holds three interfaces. With a nil one it is taken to panic at once, where the
  -- code panics at the first call through it.
  abbrev ingest_handler :
      Option (Delivery → W → Option GoError × (ℕ × W))
      → Option (String → Option GoError)
      → Option (String → List ℕ → Message → W → Option GoError × W)
      → Option (Handler W)
  ingest_handler (some ingest) (some verifier) (some quarantine) = some (record {
    verify = verifier;
    unmarshal = lib.unmarshal;
    ingest = ingest;
    quarantine = quarantine;
  })
  ingest_handler _ _ _ = none

  abbrev pub with_handler : Option (Handler W) → Request → W → Outcome × W
  with_handler none q w = (panicked, w)
  with_handler (some h) q w = let (r, w') = consume h (push_of q) w in (answer_as no_content r, w')

  -- The handler of an endpoint.
  unfoldable pub handle : Endpoint → String → Request → W → Outcome × W
  unfolding live ready burn consume handle_list handle_get handle_create handle_update handle_remove
  handle live_probe id q w =
      (answer_as fields (live (record { ping = d.db; version = d.version }) w), w)
  handle ready_probe id q w =
      (answer_as fields (ready (record { ping = d.db; version = d.version }) w), w)
  handle list_tasks id q w = with_tasks d.tasks (λ svc. handle_list svc lib.binding q.raw_query) w
  handle create_task id q w = with_tasks d.tasks (λ svc. handle_create svc lib.binding q.sent) w
  handle get_task id q w = with_tasks d.tasks (λ svc. handle_get svc lib.binding id) w
  handle update_task id q w = with_tasks d.tasks (λ svc. handle_update svc lib.binding id q.sent) w
  handle remove_task id q w = with_tasks d.tasks (λ svc. handle_remove svc lib.binding id) w
  handle burn_cpu id q w =
      (burned (burn lib.rounds lib.clock lib.now (lib.query_ms q.raw_query)), w)
  handle consume_push id q w = with_handler (ingest_handler d.ingest d.verifier d.quarantine) q w

  -- NoRoute and NoMethod answer with an error.
  abbrev pub on_routed : Routed → Request → W → Outcome × W
  on_routed (handled e id) q w = handle e id q w
  on_routed no_route q w = (answered (respond_error 404 (lit "route not found" ∷ [])), w)
  on_routed no_method q w = (answered (respond_error 405 (lit "method not allowed" ∷ [])), w)

  -- The engine that NewRouter returns, without its middleware.
  unfoldable pub dispatch : Request → W → Outcome × W
  unfolding routes handle
  dispatch q w = on_routed (lib.match_route (routes d) q.method q.path) q w
