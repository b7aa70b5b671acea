-- ===== src/HttpApi/Middleware/Logged.antt =====
-- What the middleware guarantees of every request.
use Prim.Native.String.{◌++◌}
use mathlib.Core.List
use experiment_go.Prelude.{ℕ, ◌≤◌, ◌<◌, ◌≡◌, ◌≢◌, ◌⊎◌, String, Option, none, some, List, [], ◌∷◌}
use experiment_go.Prelude.Errors.{Message}
use experiment_go.HttpApi.Response.{Response}
use experiment_go.HttpApi.Router.{Request, Library, Sent, Outcome, answered, panicked, unfinished}
use experiment_go.HttpApi.Middleware.{
  request_id_header, Level, info, warn, error, Line, panic_line, request_line, Served,
}

-- The id of a request: that of its header X-Request-ID if it has one, and `fresh` otherwise.
abbrev pub IsIdOf : String → Request → String → Type 0
IsIdOf fresh q id =
    ((q.request_id ≢ "") × (id ≡ q.request_id)) ⊎ ((q.request_id ≡ "") × (id ≡ fresh))

-- The path that is logged: with the query if there is one.
abbrev pub IsPathOf : Request → String → Type 0
IsPathOf q path =
    ((q.raw_query ≢ "") × (path ≡ q.path ++ "?" ++ q.raw_query))
    ⊎ ((q.raw_query ≡ "") × (path ≡ q.path))

-- How a request is logged: as failed if gin could not write the response, and by the status if not.
abbrev pub Fits : List Message → ℕ → Level → String → Type 0
Fits errors status level message =
    ((errors ≢ []) × (level ≡ error) × (message ≡ "request failed"))
    ⊎ ((errors ≡ [])
        × (message ≡ "request completed")
        × (((500 ≤ status) × (level ≡ error))
            ⊎ ((400 ≤ status) × (status < 500) × (level ≡ warn))
            ⊎ ((status < 400) × (level ≡ info))))

-- The lines before that of the request, by what the router did.
abbrev pub Before : Outcome → Response Sent → Request → String → List Line → Type 0
Before (answered r) answer q id before = (answer ≡ r) × (before ≡ [])
Before panicked answer q id before = (answer.status ≡ 500) × (before ≡ panic_line q.path id ∷ [])
Before unfinished answer q id before = ⊥

-- The response is the answer with the id in front of its headers; behind the line of a panic, if
-- there was one, stands the one line of the request.
pub record IsTraced {W : Type 0} (lib : Library) (fresh : String) (q : Request) (o : Outcome × W)
    (s : Served W) : Type 0 where
  pub id : String
  pub path : String
  pub level : Level
  pub message : String
  pub answer : Response Sent
  pub before : List Line
  pub identity : IsIdOf fresh q id
  pub location : IsPathOf q path
  pub cause : Before o.0 answer q id before
  pub response : s.response ≡ record answer { headers = (request_id_header, id) ∷ answer.headers }
  pub lines :
      s.lines
      ≡ List.◌++◌ before (
          request_line level message q.method path answer.status id (lib.write_errors q answer)
          ∷ [])
  pub fits : Fits (lib.write_errors q answer) answer.status level message
  pub world : s.world ≡ o.1

abbrev pub Traced :
    {W : Type 0} → Library → String → Request → Outcome × W → Option (Served W) → Type 0
Traced lib fresh q o none = o.0 ≡ unfinished
Traced lib fresh q o (some s) = IsTraced lib fresh q o s
