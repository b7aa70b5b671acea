-- ===== src/HttpApi/Ingest/Redelivery.antt =====
-- Pub/Sub delivers a message again until it is answered by 2xx: an outage that ends ends this.
use experiment_go.Prelude.{
  ℕ, zero, suc, ◌≤◌, ◌<◌, ◌≡◌, ◌⊎◌, refl, String, Option, none, some, List, true, inl, inr, arith,
  leb, Bool-cases, subst, if◌then◌else◌,
}
use experiment_go.Prelude.Errors.{GoError, Message, Result, ok, err, is_error, transient}
use experiment_go.Consumption.{Time, utc, Delivery, Sink}
use experiment_go.Consumption.Xml.{Decoder}
use experiment_go.Consumption.Registry.{Registry}
use experiment_go.Consumption.Registry.Contract.{AllParsers}
use experiment_go.Consumption.Service.Retries.{IsHonest}
use experiment_go.HttpApi.Response.{Response}
use experiment_go.HttpApi.Ingest.{
  Push, complete, read_body, bearer_token, Handler, answer, on_envelope, on_body, consume,
}
use experiment_go.HttpApi.Ingest.Contract.{Contract, Settled, consume-Contract}
use experiment_go.HttpApi.Ingest.Pipeline.{wired}
use experiment_go.Consumption.Service.Recovery.{Recovers, Spent, ingest-Spent}

-- Deliveries of one push, one after the other, until one is answered by a status below 300; `none` if
-- the deliveries allowed are used up. The result is the answer, the world before the last delivery,
-- and the world behind it.
unfoldable pub redeliver : {W : Type 0} → Handler W → Push → ℕ → W → Option (Response ⊥ × (W × W))
redeliver h push zero w = none
redeliver h push (suc more) w =
    let (r, w') = consume h push w in
    let rest = redeliver h push more w' in if leb 300 r.status then rest else some (r, (w, w'))

module _ {W : Type 0} (remaining : W → ℕ) (h : Handler W) (push : Push) where
  -- The message was settled by the last delivery.
  abbrev pub SettledAtLast : Option (Response ⊥ × (W × W)) → Type 0
  SettledAtLast none = ⊥
  SettledAtLast (some (r, (before, after))) = (r.status < 300) × Settled h push before after

  -- A delivery ends the message, or is answered by 503 and uses up a failure.
  abbrev Progresses : W → Response ⊥ × W → Type 0
  Progresses w (r, w') = (r.status < 300) ⊎ (remaining w' < remaining w)

  abbrev Spending : Type 0
  Spending =
      (msg : Delivery) (w : W)
      → (e : GoError) (n : ℕ) (w' : W) → h.ingest msg w ≡ (some e, (n, w'))
      → is_error e transient ≡ true
      → remaining w' < remaining w

  answer-Progresses :
      (msg : Delivery) (w : W) (result : Option GoError × (ℕ × W))
      → h.ingest msg w ≡ result
      → Spending
      → Progresses w (answer h msg result)
  unfolding answer
  answer-Progresses msg w (none, (n, w')) i spends = inl (omega arith)
  answer-Progresses msg w (some e, (n, w')) i spends = elim (Bool-cases (is_error e transient)) [
    | inl retry ↦ rw retry (inr (spends msg w e n w' i retry))
    | inr final ↦ rw final (inl (omega arith))
  ]

  on_envelope-Progresses :
      (body : List ℕ) (envelope : Result Delivery) (w : W)
      → Spending
      → Progresses w (on_envelope h body envelope w)
  unfolding on_envelope
  on_envelope-Progresses body (err e) w spends = inl (omega arith)
  on_envelope-Progresses body (ok msg) w spends =
      answer-Progresses msg w (h.ingest msg w) refl spends

  module _ (body : List ℕ) (read : read_body push ≡ complete body)
      (token : h.verify (bearer_token push) ≡ none) (spends : Spending) where
    consume-Progresses : (w : W) → Progresses w (consume h push w)
    unfolding consume on_body
    consume-Progresses w =
        rw (token, read) (on_envelope-Progresses body (h.unmarshal body) w spends)

    spent_on :
        (w : W) (r : Response ⊥ × W)
        → Progresses w r
        → 300 ≤ r.0.status
        → remaining r.1 < remaining w
    spent_on w (r, w') (inl low) s = absurd (omega (arith, low, s))
    spent_on w (r, w') (inr less) s = less

    settled_now :
        (w : W) (r : Response ⊥ × W) → Contract h push w r → r.0.status < 300 → Settled h push w r.1
    settled_now w (r, w') (inl (low, settled)) s = settled
    settled_now w (r, w') (inr (high, unsettled)) s = absurd (omega (arith, high, s))

    pub redeliver-Settled :
        (fuel : ℕ) (w : W) → remaining w < fuel → SettledAtLast (redeliver h push fuel w)
    unfolding redeliver
    redeliver-Settled zero w short = absurd (omega (arith, short))
    redeliver-Settled (suc more) w short =
        let (r, w') = consume h push w in
        elim (Bool-cases (leb 300 r.status)) [
          | inl again ↦ rw again (
              redeliver-Settled more w' (
                let less = spent_on w (consume h push w) (consume-Progresses w) (ground arith) in
                omega (arith, less, short)))
          | inr done ↦
              rw done
                (ground arith, settled_now w (r, w') (consume-Contract h push w) (ground arith))
        ]

-- Let the registered parsers stop at the first error of `emit` and never ask for a retry on their own
-- account, and let the sink have an outage that ends: it fails with an error that asks for a retry
-- at most as often as a number says that its world starts with. Then a push with a good token whose
-- body arrives in full, delivered again as long as it is not answered by 2xx, is answered by 2xx
-- after that many further deliveries at the latest, and the last delivery has settled it: its
-- message is stored, or handed to quarantine.
pub redelivery_ends :
    {W : Type 0} (remaining : W → ℕ) (open_document : List ℕ → Decoder) (registry : Registry)
    (sink : Sink W) (now : Time) (verify_token : String → Option GoError)
    (unmarshal : List ℕ → Result Delivery)
    (quarantine : String → List ℕ → Message → W → Option GoError × W) (push : Push) (body : List ℕ)
    (w : W)
    → Recovers remaining sink
    → AllParsers IsHonest registry
    → verify_token (bearer_token push) ≡ none
    → read_body push ≡ complete body
    → SettledAtLast remaining
        (wired open_document registry sink now verify_token unmarshal quarantine)
        push
        (redeliver
          (wired open_document registry sink now verify_token unmarshal quarantine)
          push
          (suc (remaining w))
          w)
redelivery_ends remaining open_document registry sink now verify_token unmarshal quarantine push
      body w recovers honest token read =
    redeliver-Settled remaining
      (wired open_document registry sink now verify_token unmarshal quarantine) push body read token
      (λ msg w e n w' i retry.
        (subst (Spent remaining sink recovers msg.id (utc now) (remaining w)) i
            (ingest-Spent remaining sink recovers open_document registry now msg w honest)).1
          retry)
      (suc (remaining w)) w (omega arith)
