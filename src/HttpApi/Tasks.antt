-- ===== src/HttpApi/Tasks.antt =====
-- internal/httpapi/tasks.go. gin's binding and its validator are the parameter `Binding`: what they
-- make of a query or a body, or the error they return.
pub mod Answers
pub mod Expected
pub mod Replies
pub mod Table
pub mod Lookup
pub mod Visible
use Prim.Native.String.{◌++◌}
use experiment_go.Prelude.{ℕ, String, Bool, Option, none, some, List, [], ◌∷◌, if◌then◌else◌}
use experiment_go.Prelude.Int.{ℤ, pos, ltb_ℤ}
use experiment_go.Prelude.Text.{parse_int}
use experiment_go.Prelude.Text.Decimal.{format_int}
use experiment_go.Prelude.Errors.{
  GoError, Result, ok, err, lit, is_error, not_found, invalid_title, sentinel_text,
}
use experiment_go.Task.{Task, UpdateParams, ListParams, Repository}
use experiment_go.HttpApi.Response.{Response, content, respond_error, respond_data, respond_status}

-- What stands under "data".
pub data Payload : Type 0 where
  one : Task → Payload
  many : List Task → Payload

pub record Binding (Q B : Type 0) : Type 0 where
  pub list_query : Q → Result ListParams
  pub create_request : B → Result String
  pub update_request : B → Result UpdateParams

-- taskHandler.fail
unfoldable pub fail : GoError → Response Payload
fail e =
    if is_error e not_found
    then respond_error 404 (lit "task not found" ∷ [])
    else if is_error e invalid_title
    then respond_error 400 (lit (sentinel_text invalid_title) ∷ [])
    else respond_error 500 (lit "internal server error" ∷ [])

abbrev positive_id : Option ℤ → Option ℤ
positive_id none = none
positive_id (some id) = if ltb_ℤ id (pos 1) then none else some id

-- parseID: `none` is answered by `bad_id`.
unfoldable pub parse_id : String → Option ℤ
parse_id param = positive_id (parse_int param)

abbrev pub bad_id : Response Payload
bad_id = respond_error 400 (lit "id must be a positive integer" ∷ [])

abbrev pub location_prefix : String
location_prefix = "/api/v1/tasks/"

module _ {D Q B : Type 0} (svc : Repository D) (binding : Binding Q B) where
  abbrev pub listed : Result (List Task) × D → Response Payload × D
  listed (ok tasks, d) = (respond_data 200 (many tasks), d)
  listed (err e, d) = (fail e, d)

  abbrev pub on_query : Result ListParams → D → Response Payload × D
  on_query (err e) d = (respond_error 400 (lit "invalid query parameters: " ∷ e.message), d)
  on_query (ok p) d = listed (svc.list p d)

  -- taskHandler.list
  unfoldable pub handle_list : Q → D → Response Payload × D
  unfolding fail
  handle_list query d = on_query (binding.list_query query) d

  abbrev pub found : Result Task × D → Response Payload × D
  found (ok t, d) = (respond_data 200 (one t), d)
  found (err e, d) = (fail e, d)

  abbrev pub on_get : Option ℤ → D → Response Payload × D
  on_get none d = (bad_id, d)
  on_get (some id) d = found (svc.get id d)

  -- taskHandler.get
  unfoldable pub handle_get : String → D → Response Payload × D
  unfolding fail parse_id
  handle_get param d = on_get (parse_id param) d

  abbrev pub created : Result Task × D → Response Payload × D
  created (ok t, d) = (
    record {
      status = 201;
      body = content (one t);
      headers = ("Location", location_prefix ++ format_int t.id) ∷ [];
    },
    d,
  )
  created (err e, d) = (fail e, d)

  abbrev pub on_create : Result String → D → Response Payload × D
  on_create (err e) d = (respond_error 400 (lit "invalid request body: " ∷ e.message), d)
  on_create (ok title) d = created (svc.create title d)

  -- taskHandler.create
  unfoldable pub handle_create : B → D → Response Payload × D
  unfolding fail format_int
  handle_create body d = on_create (binding.create_request body) d

  abbrev pub on_update : ℤ → Result UpdateParams → D → Response Payload × D
  on_update id (err e) d = (respond_error 400 (lit "invalid request body: " ∷ e.message), d)
  on_update id (ok p) d = found (svc.update id p d)

  abbrev pub on_update_id : Option ℤ → B → D → Response Payload × D
  on_update_id none body d = (bad_id, d)
  on_update_id (some id) body d = on_update id (binding.update_request body) d

  -- taskHandler.update
  unfoldable pub handle_update : String → B → D → Response Payload × D
  unfolding fail parse_id
  handle_update param body d = on_update_id (parse_id param) body d

  abbrev pub removed : Option GoError × D → Response Payload × D
  removed (none, d) = (respond_status 204, d)
  removed (some e, d) = (fail e, d)

  abbrev pub on_remove : Option ℤ → D → Response Payload × D
  on_remove none d = (bad_id, d)
  on_remove (some id) d = removed (svc.delete id d)

  -- taskHandler.remove
  unfoldable pub handle_remove : String → D → Response Payload × D
  unfolding fail parse_id
  handle_remove param d = on_remove (parse_id param) d
