-- ===== src/HttpApi/Tasks/Answers.antt =====
-- What the task endpoints answer, over the service and the table.
use Prim.Native.String.{◌++◌}
use experiment_go.Prelude.{ℕ, ◌<◌, ◌^◌, ◌≡◌, String, some, [], ◌∷◌, arith}
use experiment_go.Prelude.Int.{pos}
use experiment_go.Prelude.Text.Decimal.{format_int, parse_int-format_int}
use experiment_go.Prelude.Errors.{ok}
use experiment_go.Task.{Task, Repository}
use experiment_go.HttpApi.Response.{content}
use experiment_go.HttpApi.Tasks.{one, Binding, parse_id, location_prefix, handle_create}

-- A task whose id is a positive int64, as BIGSERIAL gives it, is found again under the path that its
-- creation is answered with: the answer is 201 with the task and a Location header, and the last
-- part of that header is parsed to the task's id.
pub create-Location :
    {D Q B : Type 0} (svc : Repository D) (binding : Binding Q B) (body : B) (title : String)
    (d d' : D) (t : Task) (n : ℕ)
    → binding.create_request body ≡ ok title
    → svc.create title d ≡ (ok t, d')
    → t.id ≡ pos n
    → 0 < n
    → n < 2 ^ 63
    → (handle_create svc binding body d ≡ (
      record {
        status = 201;
        body = content (one t);
        headers = ("Location", location_prefix ++ format_int t.id) ∷ [];
      },
      d',
    ))
      × (parse_id (format_int t.id) ≡ some t.id)
unfolding handle_create parse_id
create-Location svc binding body title d d' t n bound stored key positive fits =
    (rw (bound, stored), rw (key, parse_int-format_int n fits) (ground arith))
