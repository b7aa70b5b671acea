-- ===== src/HttpApi/Middleware.antt =====
-- internal/httpapi/middleware.go: the chain requestID, requestLogger, recovery around the router,
-- one function for each, called in that order. A log line is a value; its duration and client address
-- are left out. The errors that gin attaches to its context are what the router's library says.
pub mod Logged
pub mod ApiRole
use Prim.Native.String.{◌++◌}
use experiment_go.Prelude.{
  ℕ, String, Bool, ◌==◌, Option, none, some, List, [], ◌∷◌, leb, if◌then◌else◌,
}
use mathlib.Core.List
use mathlib.Core.Option.{map}
use experiment_go.Prelude.Errors.{Message, lit}
use experiment_go.HttpApi.Response.{Response, respond_error}
use experiment_go.HttpApi.Router.{
  Deps, Request, Library, Sent, Outcome, answered, panicked, unfinished, dispatch,
}

abbrev pub request_id_header : String
request_id_header = "X-Request-ID"

pub data Level : Type 0 where
  debug info warn error : Level

-- The lines of recovery and of requestLogger. `errors` are those of the line of a failed request.
pub data Line : Type 0 where
  panic_line : (path request_id : String) → Line
  request_line :
      Level
      → (message : String) → (method path : String) → (status : ℕ) → (request_id : String)
      → (errors : List Message) → Line

-- What a request leaves: the response, the errors in gin's context, the lines in their order, and the
-- world.
pub record Served (W : Type 0) : Type 0 where
  pub response : Response Sent
  pub errors : List Message
  pub lines : List Line
  pub world : W

-- requestID: the id of the request. `fresh` is uuid.NewString.
unfoldable pub id_of : String → Request → String
id_of fresh q = if q.request_id == "" then fresh else q.request_id

abbrev with_header : {W : Type 0} → String → Served W → Served W
with_header id s = record s {
  response = record s.response { headers = (request_id_header, id) ∷ s.response.headers };
}

-- requestID, around the rest of the chain.
abbrev pub set_request_id :
    {W : Type 0} → String → Request → (String → Option (Served W)) → Option (Served W)
set_request_id fresh q next = map (with_header (id_of fresh q)) (next (id_of fresh q))

abbrev pub logged_path : Request → String
logged_path q = if q.raw_query == "" then q.path else q.path ++ "?" ++ q.raw_query

-- The switch of requestLogger, on the errors in the context and the status.
unfoldable pub level_of : List Message → ℕ → Level
level_of (e ∷ errors) status = error
level_of [] status = if leb 500 status then error else if leb 400 status then warn else info

unfoldable pub message_of : List Message → String
message_of (e ∷ errors) = "request failed"
message_of [] = "request completed"

abbrev line_of : {W : Type 0} → String → Request → Served W → Line
line_of id q s =
    request_line (level_of s.errors s.response.status) (message_of s.errors) q.method
      (logged_path q) s.response.status id s.errors

abbrev logged : {W : Type 0} → String → Request → Served W → Served W
logged id q s = record s { lines = List.◌++◌ s.lines (line_of id q s ∷ []) }

-- requestLogger, behind c.Next().
abbrev pub request_logger : {W : Type 0} → String → Request → Option (Served W) → Option (Served W)
request_logger id q served = map (logged id q) served

-- A response as gin writes it.
abbrev rendered : {W : Type 0} → Library → Request → Response Sent → List Line → W → Served W
rendered lib q r lines w = record {
  response = r;
  errors = lib.write_errors q r;
  lines = lines;
  world = w;
}

-- recovery: a panic is logged and answered by 500. A panic over a broken connection, which gin's
-- recovery answers by nothing, is left out.
abbrev pub recovery : {W : Type 0} → Library → String → Request → Outcome × W → Option (Served W)
recovery lib id q (answered r, w) = some (rendered lib q r [] w)
recovery lib id q (panicked, w) = some (
    rendered lib q (respond_error 500 (lit "internal server error" ∷ []))
      (panic_line q.path id ∷ []) w)
recovery lib id q (unfinished, w) = none

-- The whole chain: `none` if the rounds allowed for a burn are used up.
unfoldable pub serve_request :
    {W : Type 0} → Library → Deps W → String → Request → W → Option (Served W)
unfolding id_of level_of message_of dispatch
serve_request lib d fresh q w =
    set_request_id fresh q (λ id. request_logger id q (recovery lib id q (dispatch lib d q w)))
