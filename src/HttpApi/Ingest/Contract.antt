-- ===== src/HttpApi/Ingest/Contract.antt =====
-- The contract of the push endpoint with Pub/Sub: a 2xx answer ends the delivery of a message, any
-- other answer has it delivered again.
use experiment_go.Prelude.{
  ℕ, ◌≤◌, ◌<◌, ◌≡◌, ◌⊎◌, inl, inr, refl, Bool-cases, Option, none, some, List, ◌∷◌, true, false,
  arith,
}
use experiment_go.Prelude.Errors.{GoError, Result, ok, err, is_error, transient, lit}
use experiment_go.Consumption.{Delivery}
use experiment_go.HttpApi.Response.{Response}
use experiment_go.HttpApi.Ingest.{
  Push, BodyRead, complete, too_large, failed, read_body, bearer_token, Handler, park, answer,
  on_envelope, on_body, on_verified, consume,
}

module _ {W : Type 0} (h : Handler W) (push : Push) (w : W) where
  -- What became of a message whose delivery ends, from the world `w` to the world `w'`.
  pub data Settled (w' : W) : Type 0 where
    stored :
        (body : List ℕ) (msg : Delivery) (readings : ℕ)
        → read_body push ≡ complete body
        → h.unmarshal body ≡ ok msg
        → h.ingest msg w ≡ (none, (readings, w'))
        → Settled w'
    parked :
        (body : List ℕ) (msg : Delivery) (e : GoError) (readings : ℕ) (written : W)
        → read_body push ≡ complete body
        → h.unmarshal body ≡ ok msg
        → h.ingest msg w ≡ (some e, (readings, written))
        → is_error e transient ≡ false
        → w' ≡ (h.quarantine msg.id msg.payload e.message written).1
        → Settled w'
    unreadable :
        (body : List ℕ) (e : GoError)
        → read_body push ≡ complete body
        → h.unmarshal body ≡ err e
        → w' ≡ (h.quarantine "" body (lit "unparseable push envelope: " ∷ e.message) w).1
        → Settled w'

  -- What became of a message that is delivered again: nothing, or an Ingest that may be repeated.
  pub data Unsettled (w' : W) : Type 0 where
    untouched : w' ≡ w → Unsettled w'
    repeatable :
        (body : List ℕ) (msg : Delivery) (e : GoError) (readings : ℕ)
        → read_body push ≡ complete body
        → h.unmarshal body ≡ ok msg
        → h.ingest msg w ≡ (some e, (readings, w'))
        → is_error e transient ≡ true
        → Unsettled w'

  -- The status of a response, with what became of the message.
  abbrev pub Contract : Response ⊥ × W → Type 0
  Contract (r, w') = ((r.status < 300) × Settled w') ⊎ ((300 ≤ r.status) × Unsettled w')

  answer-Contract :
      (body : List ℕ) (msg : Delivery) (result : Option GoError × (ℕ × W))
      → read_body push ≡ complete body
      → h.unmarshal body ≡ ok msg
      → h.ingest msg w ≡ result
      → Contract (answer h msg result)
  unfolding answer park
  answer-Contract body msg (none, (readings, w')) b u i =
      inl (omega arith, Settled.stored body msg readings b u i)
  answer-Contract body msg (some e, (readings, w')) b u i =
      elim (Bool-cases (is_error e transient)) [
        | inl retry ↦
            rw retry (inr (omega arith, Unsettled.repeatable body msg e readings b u i retry))
        | inr final ↦
            rw final (inl (omega arith, Settled.parked body msg e readings w' b u i final refl))
      ]

  on_envelope-Contract :
      (body : List ℕ) (envelope : Result Delivery)
      → read_body push ≡ complete body
      → h.unmarshal body ≡ envelope
      → Contract (on_envelope h body envelope w)
  unfolding on_envelope park
  on_envelope-Contract body (err e) b u = inl (omega arith, Settled.unreadable body e b u refl)
  on_envelope-Contract body (ok msg) b u = answer-Contract body msg (h.ingest msg w) b u refl

  on_body-Contract : (read : BodyRead) → read_body push ≡ read → Contract (on_body h read w)
  unfolding on_body
  on_body-Contract too_large b = inr (omega arith, Unsettled.untouched refl)
  on_body-Contract (failed e) b = inr (omega arith, Unsettled.untouched refl)
  on_body-Contract (complete body) b = on_envelope-Contract body (h.unmarshal body) b refl

  on_verified-Contract : (e : Option GoError) → Contract (on_verified h push e w)
  on_verified-Contract (some e) = inr (omega arith, Unsettled.untouched refl)
  on_verified-Contract none = on_body-Contract (read_body push) refl

  -- A 2xx answer means that the message is stored without an error, or that its payload (the whole
  -- body if the envelope cannot be parsed) has been handed to quarantine after an error that does not
  -- ask for a retry. Any other answer means that nothing was touched, or that Ingest asked for a
  -- retry and nothing was quarantined.
  pub consume-Contract : Contract (consume h push w)
  unfolding consume
  consume-Contract = on_verified-Contract (h.verify (bearer_token push))
