-- ===== src/HttpApi/Ingest.antt =====
-- internal/httpapi/ingest.go: the Pub/Sub push handler. What it calls through interfaces acts on a
-- world `W`: the sink and the quarantine bucket live there.
pub mod Contract
pub mod Pipeline
pub mod Outage
pub mod Redelivery
use experiment_go.Prelude.{
  ℕ, ◌*◌, ◌^◌, String, Bool, true, false, Option, none, some, List, [], ◌∷◌, ltb, length,
  if◌then◌else◌, Char, code, eqb, ◌&&◌,
}
use experiment_go.Prelude.Errors.{GoError, Message, Result, ok, err, lit, transient, is_error}
use experiment_go.Consumption.{Delivery}
use experiment_go.HttpApi.Response.{Response, respond_error, respond_status}

-- maxIngestBody = 16 << 20
abbrev pub max_ingest_body : ℕ
max_ingest_body = 16 * 2 ^ 20

-- A push as it arrives: the Authorization header (empty if absent), the bytes that the connection
-- delivers, and the fault of the connection behind them, if any.
pub record Push : Type 0 where
  pub authorization : String
  pub sent : List ℕ
  pub broken : Option GoError

-- What io.ReadAll returns on the limited body.
pub data BodyRead : Type 0 where
  complete : List ℕ → BodyRead
  too_large : BodyRead
  failed : GoError → BodyRead

abbrev read_rest : List ℕ → Option GoError → BodyRead
read_rest sent none = complete sent
read_rest sent (some e) = failed e

-- http.MaxBytesReader and io.ReadAll
unfoldable pub read_body : Push → BodyRead
read_body push =
    if ltb max_ingest_body (length push.sent) then too_large else read_rest push.sent push.broken

-- strings.CutPrefix(header, prefix): what is behind the prefix, or the empty text.
unfoldable pub cut_prefix : String → String → String
cut_prefix s String.[] = s
cut_prefix String.[] (String.◌∷◌ d t) = ""
cut_prefix (String.◌∷◌ c s) (String.◌∷◌ d t) =
    let rest = cut_prefix s t in if eqb (code c) (code d) then rest else ""

-- bearerToken
unfoldable pub bearer_token : Push → String
unfolding cut_prefix
bearer_token push = cut_prefix push.authorization "Bearer "

-- The interfaces that the handler holds. `unmarshal` is json.Unmarshal into a pushEnvelope, as far as
-- the handler uses the envelope: the message's id, data and attributes.
pub record Handler (W : Type 0) : Type 0 where
  pub verify : String → Option GoError
  pub unmarshal : List ℕ → Result Delivery
  pub ingest : Delivery → W → Option GoError × (ℕ × W)
  pub quarantine : String → List ℕ → Message → W → Option GoError × W

module _ {W : Type 0} (h : Handler W) where
  -- park: a failure to quarantine is only logged.
  unfoldable pub park : String → List ℕ → Message → W → W
  park id payload reason w = (h.quarantine id payload reason w).1

  -- The switch over the result of Ingest.
  unfoldable pub answer : Delivery → Option GoError × (ℕ × W) → Response ⊥ × W
  unfolding park
  answer msg (none, (readings, w)) = (respond_status 204, w)
  answer msg (some e, (readings, w)) =
      if is_error e transient
      then (respond_error 503 (lit "temporarily unable to store readings" ∷ []), w)
      else (respond_status 200, park msg.id msg.payload e.message w)

  unfoldable pub on_envelope : List ℕ → Result Delivery → W → Response ⊥ × W
  unfolding answer
  on_envelope body (err e) w =
      (respond_status 200, park "" body (lit "unparseable push envelope: " ∷ e.message) w)
  on_envelope body (ok msg) w = answer msg (h.ingest msg w)

  unfoldable pub on_body : BodyRead → W → Response ⊥ × W
  unfolding on_envelope
  on_body too_large w = (respond_error 413 (lit "payload too large" ∷ []), w)
  on_body (failed e) w = (respond_error 503 (lit "temporarily unable to read request body" ∷ []), w)
  on_body (complete body) w = on_envelope body (h.unmarshal body) w

  abbrev pub on_verified : Push → Option GoError → W → Response ⊥ × W
  on_verified push (some e) w = (respond_error 401 (lit "invalid authentication token" ∷ []), w)
  on_verified push none w = on_body (read_body push) w

  -- consume: the response and the world behind it.
  unfoldable pub consume : Push → W → Response ⊥ × W
  unfolding on_body bearer_token
  consume push w = on_verified push (h.verify (bearer_token push)) w
