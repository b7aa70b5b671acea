-- ===== src/Tests/Lookup.antt =====
-- A task that is created and got, over a table that holds one row at most.
use experiment_go.Prelude.{◌<◌, ◌≡◌, sym, ap, String, Bool, none, some, Option, [], arith}
use experiment_go.Prelude.Text.{trim_space, trim, trim_left, trim_right, is_space}
use experiment_go.Task.{Task, normalise_title, create_task, new_service}
use experiment_go.Task.Postgres.{row, insert_task, new_postgres_repository}
use experiment_go.HttpApi.Tasks.{handle_create}
use experiment_go.HttpApi.Tasks.Expected.{create_call}
use experiment_go.HttpApi.Tasks.Table.{serve_call}
use experiment_go.HttpApi.Tasks.Lookup.{IsSerial}
use experiment_go.HttpApi.Tasks.Visible.{Visible, serve_call-Visible}
use experiment_go.Tests.Tasks.{one_row_pool, one_row_table, text_binding, task_of}

row_of_row : (t u : Task) → row t ≡ row u → t ≡ u
row_of_row t u h = cc

insert_row-IsSerial :
    (title : String) (d : Option (String × Bool)) (t : Task)
    → (one_row_pool.insert title d).0 ≡ row t
    → IsSerial t.id
insert_row-IsSerial title none t h =
    (1, sym (ap (λ u. u.id) (row_of_row (task_of _) t h)), omega arith, omega arith)
insert_row-IsSerial title (some entry) t h = absurd cc

created_201 :
    (serve_call one_row_pool one_row_table text_binding (create_call []) none).0.status < 300
unfolding serve_call handle_create new_service new_postgres_repository create_task insert_task
    normalise_title trim_space trim trim_left trim_right is_space
created_201 = omega arith

serve_call-Visible_example :
    Visible one_row_pool one_row_table text_binding insert_row-IsSerial
      (create_call [])
      (serve_call one_row_pool one_row_table text_binding (create_call []) none)
serve_call-Visible_example =
    serve_call-Visible one_row_pool one_row_table text_binding insert_row-IsSerial (create_call [])
      none created_201
