-- ===== src/HttpApi/Router/Exposed.antt =====
-- Which handlers a role exposes.
use experiment_go.Prelude.{is_some, ◌≡◌, Bool, true, false, ◌&&◌, ◌||◌, ◌==◌, List, [], ◌∷◌, arith}
use experiment_go.HttpApi.Router.{
  Deps, Endpoint, live_probe, ready_probe, list_tasks, create_task, get_task, update_task,
  remove_task, burn_cpu, consume_push, Route, routes,
}

abbrev pub same_endpoint : Endpoint → Endpoint → Bool
same_endpoint live_probe live_probe = true
same_endpoint ready_probe ready_probe = true
same_endpoint list_tasks list_tasks = true
same_endpoint create_task create_task = true
same_endpoint get_task get_task = true
same_endpoint update_task update_task = true
same_endpoint remove_task remove_task = true
same_endpoint burn_cpu burn_cpu = true
same_endpoint consume_push consume_push = true
same_endpoint _ _ = false

-- Some route leads to the endpoint.
abbrev pub leads_to : Endpoint → List Route → Bool
leads_to e [] = false
leads_to e (r ∷ rs) = same_endpoint r.endpoint e || leads_to e rs

abbrev taken : Route → List Route → Bool
taken r [] = false
taken r (s ∷ rs) = (r.method == s.method && r.pattern == s.pattern) || taken r rs

-- Two routes have the same method and pattern, at which gin panics.
abbrev pub has_conflict : List Route → Bool
has_conflict [] = false
has_conflict (r ∷ rs) = taken r rs || has_conflict rs

-- What a role is meant to expose.
abbrev pub offered : {W : Type 0} → Deps W → Endpoint → Bool
offered d live_probe = true
offered d ready_probe = true
offered d burn_cpu = d.enable_burn
offered d consume_push = d.enable_ingest
offered d _ = is_some d.tasks

-- The probes are always there; the five task routes exactly if there is a task service; the burn
-- endpoint and the push endpoint exactly if they are enabled, each on its own. No two routes conflict,
-- whatever the role, so that building the router does not panic.
pub routes-offered :
    {W : Type 0} (d : Deps W) (e : Endpoint)
    → (leads_to e (routes d) ≡ offered d e) × (has_conflict (routes d) ≡ false)
unfolding routes
routes-offered d live_probe = ground arith
routes-offered d _ = ground arith
