-- ===== src/HttpApi/Ingest/Pipeline.antt =====
-- The push endpoint over the consumption service.
use experiment_go.Prelude.{
  ℕ, ◌≡◌, String, Option, none, some, List, [], ◌∷◌, true, arith, Bool-cases, inl, inr,
}
use experiment_go.Prelude.Errors.{GoError, Message, Result, ok, err, is_error, transient}
use experiment_go.Consumption.{Time, Delivery, Sink}
use experiment_go.Consumption.Xml.{Decoder}
use experiment_go.Consumption.Registry.{Registry}
use experiment_go.Consumption.Registry.Contract.{AllParsers}
use experiment_go.Consumption.Service.{ingest}
use experiment_go.Consumption.Service.Failures.{watched}
use experiment_go.Consumption.Service.Retries.{IsHonest, Blames, ingest-Blames}
use experiment_go.HttpApi.Ingest.{
  Push, complete, read_body, bearer_token, Handler, answer, on_envelope, on_body, on_verified,
  consume,
}

module _ {W : Type 0} (open_document : List ℕ → Decoder) (registry : Registry) (sink : Sink W)
    (now : Time) (verify_token : String → Option GoError) (unmarshal : List ℕ → Result Delivery)
    (quarantine : String → List ℕ → Message → W → Option GoError × W) where
  -- The handler as main wires it.
  abbrev pub wired : Handler W
  wired = record {
    verify = verify_token;
    unmarshal = unmarshal;
    ingest = ingest open_document registry sink now;
    quarantine = quarantine;
  }

-- The newest write failed with an error that asks for a retry.
abbrev pub NewestFails : List (Option GoError) → Type 0
NewestFails [] = ⊥
NewestFails (none ∷ log) = ⊥
NewestFails (some e ∷ log) = is_error e transient ≡ true

Blames-NewestFails :
    (e : GoError) (log : List (Option GoError))
    → is_error e transient ≡ true
    → Blames (some e) log
    → NewestFails log
Blames-NewestFails e [] t h = cc
Blames-NewestFails e (none ∷ log) t (inl h) = cc
Blames-NewestFails e (none ∷ log) t (inr h) = cc
Blames-NewestFails e (some d ∷ log) t (inl h) = cc
Blames-NewestFails e (some d ∷ log) t (inr h) = ground arith

module _ {W : Type 0} (h : Handler (W × List (Option GoError))) where
  answer-NewestFails :
      (msg : Delivery) (r : Option GoError × (ℕ × (W × List (Option GoError))))
      → Blames r.0 r.1.1.1
      → (answer h msg r).0.status ≡ 503
      → NewestFails (answer h msg r).1.1
  unfolding answer
  answer-NewestFails msg (none, (n, (w, log))) b s = absurd (omega arith)
  answer-NewestFails msg (some e, (n, (w, log))) b s = elim (Bool-cases (is_error e transient)) [
    | inl retry ↦ rw retry (Blames-NewestFails e log retry b)
    | inr final ↦ absurd (omega (arith, rw final at s))
  ]

  on_envelope-NewestFails :
      (body : List ℕ) (envelope : Result Delivery) (s : W × List (Option GoError))
      → ((msg : Delivery) → Blames (h.ingest msg s).0 (h.ingest msg s).1.1.1)
      → (on_envelope h body envelope s).0.status ≡ 503
      → NewestFails (on_envelope h body envelope s).1.1
  unfolding on_envelope
  on_envelope-NewestFails body (err e) s b q = absurd (omega (arith, q))
  on_envelope-NewestFails body (ok msg) s b q = answer-NewestFails msg (h.ingest msg s) (b msg) q

  on_verified-NewestFails :
      (push : Push) (body : List ℕ) (e : Option GoError) (s : W × List (Option GoError))
      → ((msg : Delivery) → Blames (h.ingest msg s).0 (h.ingest msg s).1.1.1)
      → read_body push ≡ complete body
      → (on_verified h push e s).0.status ≡ 503
      → NewestFails (on_verified h push e s).1.1
  unfolding on_body
  on_verified-NewestFails push body (some e) s b read q = absurd (omega (arith, q))
  on_verified-NewestFails push body none s b read q =
      rw read (on_envelope-NewestFails body (h.unmarshal body) s b (rw read at q))

-- Let the registered parsers stop at the first error of `emit` and never ask for a retry on their own
-- account. If a push whose body arrived in full is answered by 503, then the newest write to the
-- sink failed with an error that asks for a retry.
pub consume_retry :
    {W : Type 0} (open_document : List ℕ → Decoder) (registry : Registry) (sink : Sink W)
    (now : Time) (verify_token : String → Option GoError) (unmarshal : List ℕ → Result Delivery)
    (quarantine : String
      → List ℕ
      → Message
      → W × List (Option GoError)
      → Option GoError × (W × List (Option GoError)))
    (push : Push) (body : List ℕ) (w : W)
    → AllParsers IsHonest registry
    → read_body push ≡ complete body
    → (consume
        (wired open_document registry (watched sink) now verify_token unmarshal quarantine)
        push
        (w, [])).0.status
      ≡ 503
    → NewestFails
        (consume
          (wired open_document registry (watched sink) now verify_token unmarshal quarantine)
          push
          (w, [])).1.1
unfolding consume
consume_retry open_document registry sink now verify_token unmarshal quarantine push body w honest
      read =
    on_verified-NewestFails
      (wired open_document registry (watched sink) now verify_token unmarshal quarantine) push body
      (verify_token (bearer_token push)) (w, [])
      (λ msg. ingest-Blames open_document registry sink now msg w honest) read
