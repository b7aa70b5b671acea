-- ===== src/HttpApi/Health.antt =====
-- internal/httpapi/health.go, and the pool that the ingest role does not have. The clock behind the
-- timeout of a ping is left to `ping`.
use experiment_go.Prelude.{arith, ◌≡◌, ◌↔◌, refl, String, Option, none, some, List, [], ◌∷◌}
use experiment_go.Prelude.Errors.{GoError}
use experiment_go.HttpApi.Response.{Response, content}

-- A JSON object of texts: gin.H.
abbrev pub Fields : Type 0
Fields = List (String × String)

-- healthHandler: no database in the ingest role, or what a ping of it returns.
pub record HealthHandler (D : Type 0) : Type 0 where
  pub ping : Option (D → Option GoError)
  pub version : String

abbrev ready_answer : Response Fields
ready_answer = record { status = 200; body = content (("status", "ready") ∷ []); headers = [] }

abbrev unavailable_answer : Response Fields
unavailable_answer = record {
  status = 503;
  body = content (("status", "unavailable") ∷ ("dependency", "postgres") ∷ []);
  headers = [];
}

abbrev on_ping : Option GoError → Response Fields
on_ping none = ready_answer
on_ping (some e) = unavailable_answer

abbrev on_pinger : {D : Type 0} → Option (D → Option GoError) → D → Response Fields
on_pinger none d = ready_answer
on_pinger (some ping) d = on_ping (ping d)

module _ {D : Type 0} (h : HealthHandler D) where
  -- healthHandler.live
  unfoldable pub live : D → Response Fields
  live d = record {
    status = 200;
    body = content (("status", "ok") ∷ ("version", h.version) ∷ []);
    headers = [];
  }

  -- healthHandler.ready
  unfoldable pub ready : D → Response Fields
  ready d = on_pinger h.ping d

module _ {D : Type 0} (h : HealthHandler D) (d : D) where
  -- A database is there, and its ping fails.
  abbrev pub IsDown : Type 0
  IsDown = (ping : D → Option GoError) × (e : GoError) × (h.ping ≡ some ping) × (ping d ≡ some e)

  ping_answer_iff :
      (ping : D → Option GoError) (r : Option GoError)
      → h.ping ≡ some ping
      → ping d ≡ r
      → ((on_ping r).status ≡ 503) ↔ IsDown
  ping_answer_iff ping none e q =
      (λ x. absurd (omega (arith, x)), λ (other, error, a, b). absurd (cc (e, q, a, b)))
  ping_answer_iff ping (some error) e q = (λ x. (ping, error, e, q), λ down. refl)

  ready_answer_iff :
      (o : Option (D → Option GoError)) → h.ping ≡ o → ((on_pinger o d).status ≡ 503) ↔ IsDown
  ready_answer_iff none e =
      (λ x. absurd (omega (arith, x)), λ (other, error, a, b). absurd (cc (e, a)))
  ready_answer_iff (some ping) e = ping_answer_iff ping (ping d) e refl

  -- Readiness is refused, with 503, exactly if there is a database and its ping fails; liveness is
  -- answered by 200 also then.
  pub ready-IsDown : (((ready h d).status ≡ 503) ↔ IsDown) × ((live h d).status ≡ 200)
  unfolding ready live
  ready-IsDown = (ready_answer_iff h.ping refl, refl)
