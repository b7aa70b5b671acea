-- ===== src/Tests/ApiRole.antt =====
-- Requests to the API role, one after the other, over a table that holds one row at most.
use experiment_go.Prelude.{
  ◌≡◌, refl, String, true, ◌&&◌, ◌==◌, none, List, [], ◌∷◌, Bool-cases, inl, inr, arith,
}
use experiment_go.Task.Store.Tidy.{AllTidy}
use experiment_go.HttpApi.Router.{Endpoint, Route, handled, Request}
use experiment_go.HttpApi.Router.Exposed.{same_endpoint}
use experiment_go.HttpApi.Router.Effects.{serves}
use experiment_go.HttpApi.Middleware.{serve_request}
use experiment_go.HttpApi.Middleware.ApiRole.{
  api, ServedEffect, serve_request-Effect, serve_all, serve_all-AllTidy,
}
use experiment_go.Tests.Tasks.{one_row_pool, one_row_table}
use experiment_go.Tests.Routing.{
  exact_match, same_endpoint_refl, endpoint_of, gin, api_role, creating,
}

exact_match-serves :
    (table : List Route) (method path : String) (e : Endpoint) (id : String)
    → exact_match table method path ≡ handled e id
    → serves method e table ≡ true
exact_match-serves [] method path e id h = absurd cc
exact_match-serves (r ∷ table) method path e id h =
    elim (Bool-cases (r.method == method && r.pattern == path)) [
      | inl hit ↦
          let same : r.endpoint ≡ e = endpoint_of (rw hit at h) in
          let named : (r.method == method) ≡ true = ground arith in
          rw (named, same, same_endpoint_refl e) refl
      | inr miss ↦ elim (Bool-cases (r.method == method && same_endpoint r.endpoint e)) [
        | inl found ↦ rw found refl
        | inr other ↦ rw other (exact_match-serves table method path e id (rw miss at h))
      ]
    ]

abbrev listing : Request
listing = record creating { method = "GET" }

serve_request-Effect_example :
    ServedEffect one_row_pool one_row_table gin api_role "POST"
      (one_row_table.stored none)
      (serve_request gin (api one_row_pool one_row_table gin api_role) "f81d4fae" creating none)
serve_request-Effect_example =
    serve_request-Effect one_row_pool one_row_table gin api_role "f81d4fae" creating none
      exact_match-serves

serve_all-AllTidy_example : AllTidy (
    one_row_table.stored (
      serve_all one_row_pool one_row_table gin api_role
        (("a", creating) ∷ ("b", listing) ∷ ("c", creating) ∷ [])
        none))
serve_all-AllTidy_example =
    serve_all-AllTidy one_row_pool one_row_table gin api_role
      (("a", creating) ∷ ("b", listing) ∷ ("c", creating) ∷ []) none exact_match-serves
      (λ id t e. absurd cc)
