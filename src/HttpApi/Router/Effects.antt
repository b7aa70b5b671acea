-- ===== src/HttpApi/Router/Effects.antt =====
-- What requests to the API role do to the table of tasks: the router with its handlers over the
-- service and the Postgres repository.
use experiment_go.Prelude.{
  ℕ, ◌≤◌, ◌≡◌, inl, inr, String, Bool, true, false, ◌&&◌, ◌||◌, ◌==◌, Option, none, some, List, [],
  ◌∷◌, arith, ap,
}
use experiment_go.Prelude.Int.{ℤ}
use experiment_go.Prelude.Errors.{Result, ok, err}
use experiment_go.Task.{Task, UpdateParams}
use experiment_go.Task.Titles.{IsTidy}
use experiment_go.Task.Postgres.{Pool}
use experiment_go.Task.Postgres.Contents.{Rowset, Same, Written}
use experiment_go.Task.Store.Tidy.{AllTidy, Same-AllTidy, Written-AllTidy, titled}
use experiment_go.HttpApi.Response.{Response}
use experiment_go.HttpApi.Tasks.{Payload}
use experiment_go.HttpApi.Tasks.Expected.{OnGet, OnCreate, OnUpdate, OnRemove}
use experiment_go.HttpApi.Router.{Endpoint, Route, handled, Library}
use experiment_go.HttpApi.Router.Exposed.{same_endpoint}

-- Some route with the method leads to the endpoint.
abbrev pub serves : String → Endpoint → List Route → Bool
serves method e [] = false
serves method e (r ∷ rs) = (r.method == method && same_endpoint r.endpoint e) || serves method e rs

-- gin gives a request only to an endpoint that some route with its method leads to.
abbrev pub RespectsMethods : Library → Type 0
RespectsMethods lib =
    (table : List Route) (method path : String) (e : Endpoint) (id : String)
    → lib.match_route table method path ≡ handled e id
    → serves method e table ≡ true

-- What an answer with a status does to the table: a refusal changes nothing, nor does a GET, and
-- tidy titles stay tidy.
pub record Effect (method : String) (status : ℕ) (before after : Rowset) : Type 0 where
  pub refused : 300 ≤ status → Same before after
  pub read : method ≡ "GET" → Same before after
  pub tidy : AllTidy before → AllTidy after

module _ (method : String) (status : ℕ) where
  pub Same-Effect : (before after : Rowset) → Same before after → Effect method status before after
  Same-Effect before after h = record {
    refused = λ _. h;
    read = λ _. h;
    tidy = Same-AllTidy before after h;
  }

  pub Written-Effect :
      (key : ℤ) (value : Option Task) (before after : Rowset)
      → ¬ (300 ≤ status)
      → ¬ (method ≡ "GET")
      → ((t : Task) → value ≡ some t → IsTidy t.title)
      → Written key value before after
      → Effect method status before after
  Written-Effect key value before after good changes tidy w = record {
    refused = λ h. absurd (good h);
    read = λ h. absurd (changes h);
    tidy = Written-AllTidy key value before after tidy w;
  }

module _ {D : Type 0} (pool : Pool D) (d : D) (method : String) (r : Response Payload)
    (before after : Rowset) where
  abbrev Does : Type 0
  Does = Effect method r.status before after

  pub OnGet-Effect : (id : Option ℤ) → OnGet pool d id r before after → Does
  OnGet-Effect none h = Same-Effect method r.status before after h.1
  OnGet-Effect (some id) (inl h) = Same-Effect method r.status before after h.4
  OnGet-Effect (some id) (inr (inl h)) = Same-Effect method r.status before after h.2.1
  OnGet-Effect (some id) (inr (inr h)) = Same-Effect method r.status before after h.1.1

  module _ (changes : ¬ (method ≡ "GET")) where
    pub OnCreate-Effect : (b : Result String) → OnCreate pool d b r before after → Does
    OnCreate-Effect (err e) h = Same-Effect method r.status before after h.1
    OnCreate-Effect (ok title) (inl h) =
        Written-Effect method r.status h.0.id (some h.0) before after (λ q. omega (arith, q, h.6))
          changes (titled h.0 title h.1 h.2) h.8
    OnCreate-Effect (ok title) (inr (inl h)) = Same-Effect method r.status before after h.1.1
    OnCreate-Effect (ok title) (inr (inr h)) = Same-Effect method r.status before after h.2.1

    pub OnUpdate-Effect :
        (id : Option ℤ) (b : Result UpdateParams) → OnUpdate pool d id b r before after → Does
    OnUpdate-Effect none b h = Same-Effect method r.status before after h.1
    OnUpdate-Effect (some id) (err e) h = Same-Effect method r.status before after h.1
    OnUpdate-Effect (some id) (ok p) (inl h) =
        Written-Effect method r.status id (some h.0) before after
          (λ q. omega (arith, q, ap (λ x. x.status) h.7)) changes (titled h.0 p.title h.1 h.2) h.8
    OnUpdate-Effect (some id) (ok p) (inr (inl h)) = Same-Effect method r.status before after h.3.1
    OnUpdate-Effect (some id) (ok p) (inr (inr (inl h))) =
        Same-Effect method r.status before after h.1.1
    OnUpdate-Effect (some id) (ok p) (inr (inr (inr h))) =
        Same-Effect method r.status before after h.2.1

    pub OnRemove-Effect : (id : Option ℤ) → OnRemove pool d id r before after → Does
    OnRemove-Effect none h = Same-Effect method r.status before after h.1
    OnRemove-Effect (some id) (inl h) =
        Written-Effect method r.status id none before after (λ q. omega (arith, q, h.2)) changes
          (λ t e. cc) h.3
    OnRemove-Effect (some id) (inr (inl h)) = Same-Effect method r.status before after h.2.1
    OnRemove-Effect (some id) (inr (inr h)) = Same-Effect method r.status before after h.1.1
