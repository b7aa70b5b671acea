-- ===== src/HttpApi/Router/Dispatch.antt =====
-- No request reaches a handler that lacks what it needs.
use experiment_go.Prelude.{
  is_some, ℕ, ◌≡◌, ◌≢◌, ◌⊎◌, inl, inr, refl, String, true, false, Option, none, some, List,
}
use experiment_go.Prelude.Int.{ℤ}
use experiment_go.Prelude.Errors.{GoError, Message}
use experiment_go.Consumption.{Delivery}
use experiment_go.Task.{Repository}
use experiment_go.HttpApi.Response.{Response}
use experiment_go.HttpApi.Tasks.{Payload}
use experiment_go.HttpApi.Router.{
  Deps, Endpoint, live_probe, ready_probe, list_tasks, create_task, get_task, update_task,
  remove_task, burn_cpu, consume_push, Route, routes, Routed, handled, no_route, no_method, Request,
  Library, panicked, with_tasks, burned, with_handler, ingest_handler, handle, on_routed, dispatch,
}
use experiment_go.HttpApi.Router.Exposed.{leads_to, offered, routes-offered}

-- gin gives a request only to an endpoint that some route of the table leads to.
abbrev pub IsSound : Library → Type 0
IsSound lib =
    (table : List Route) (method path : String) (e : Endpoint) (id : String)
    → lib.match_route table method path ≡ handled e id
    → leads_to e table ≡ true

-- The push endpoint is off, or its three interfaces are there.
abbrev pub IsWired : {W : Type 0} → Deps W → Type 0
IsWired d =
    (d.enable_ingest ≡ false)
    ⊎ ((is_some d.ingest ≡ true) × (is_some d.verifier ≡ true) × (is_some d.quarantine ≡ true))

module _ {W : Type 0} (lib : Library) (d : Deps W) (q : Request) (w : W) where
  with_tasks-ne :
      (o : Option (Repository W)) (f : Repository W → W → Response Payload × W)
      → is_some o ≡ true
      → (with_tasks lib d o f w).0 ≢ panicked
  with_tasks-ne none f h = cc
  with_tasks-ne (some svc) f h = λ e. cc

  with_handler-ne :
      (i : Option (Delivery → W → Option GoError × (ℕ × W))) (v : Option (String → Option GoError))
      (k : Option (String → List ℕ → Message → W → Option GoError × W))
      → (is_some i ≡ true) × (is_some v ≡ true) × (is_some k ≡ true)
      → (with_handler lib d (ingest_handler lib d i v k) q w).0 ≢ panicked
  with_handler-ne (some i) (some v) (some k) h = λ e. cc
  with_handler-ne none v k h = absurd (cc (h.0))
  with_handler-ne (some i) none k h = absurd (cc (h.1))
  with_handler-ne (some i) (some v) none h = absurd (cc (h.2))

  burned-ne : (r : Option (Response ℤ)) → burned r ≢ panicked
  burned-ne none = λ e. cc
  burned-ne (some r) = λ e. cc

  push-ne : IsWired d → d.enable_ingest ≡ true → (handle lib d consume_push "" q w).0 ≢ panicked
  unfolding handle
  push-ne (inl off) on = absurd (cc (off, on))
  push-ne (inr h) on = with_handler-ne d.ingest d.verifier d.quarantine h

  handle-ne :
      IsWired d
      → (e : Endpoint) (id : String) → offered d e ≡ true
      → (handle lib d e id q w).0 ≢ panicked
  unfolding handle
  handle-ne wired live_probe id h = λ e. cc
  handle-ne wired ready_probe id h = λ e. cc
  handle-ne wired burn_cpu id h = burned-ne _
  handle-ne wired consume_push id h = push-ne wired h
  handle-ne wired list_tasks id h = with_tasks-ne d.tasks _ h
  handle-ne wired create_task id h = with_tasks-ne d.tasks _ h
  handle-ne wired get_task id h = with_tasks-ne d.tasks _ h
  handle-ne wired update_task id h = with_tasks-ne d.tasks _ h
  handle-ne wired remove_task id h = with_tasks-ne d.tasks _ h

  on_routed-ne :
      IsWired d
      → (r : Routed) → ((e : Endpoint) (id : String) → r ≡ handled e id → offered d e ≡ true)
      → (on_routed lib d r q w).0 ≢ panicked
  on_routed-ne wired (handled e id) h = handle-ne wired e id (h e id refl)
  on_routed-ne wired no_route h = λ e. cc
  on_routed-ne wired no_method h = λ e. cc

  -- In either role, with gin sound and the interfaces of an enabled push endpoint there, no request
  -- whatever makes a handler panic on a missing service: a handler that lacks one has no route.
  pub dispatch-ne-panicked : IsSound lib → IsWired d → (dispatch lib d q w).0 ≢ panicked
  unfolding dispatch
  dispatch-ne-panicked sound wired =
      on_routed-ne wired (lib.match_route (routes d) q.method q.path)
        (λ e id h. cc (sound (routes d) q.method q.path e id h, (routes-offered d e).0))
