-- ===== src/Tests/Endpoint.antt =====
-- Pushes to the ingest endpoint.
use experiment_go.Prelude.{
  ℕ, ◌≡◌, ◌↔◌, refl, String, Option, none, some, List, [], ◌∷◌, ◌==◌, if◌then◌else◌, true,
}
use text.Mathlib.TextLemmas.{cons-ne-nil}
use experiment_go.Prelude.Errors.{GoError, Message, Result, ok, err, lit, plain_error}
use experiment_go.Consumption.{Delivery}
use experiment_go.HttpApi.Ingest.{
  Push, complete, read_body, cut_prefix, bearer_token, Handler, consume,
}
use experiment_go.HttpApi.Ingest.Contract.{Contract, consume-Contract}
use experiment_go.HttpApi.Oidc.{Claims, Verifier, verify}
use experiment_go.HttpApi.Oidc.Laws.{IsTrusted, verify_iff}
use experiment_go.Consumption.Xml.{Decoder, Fault}
use experiment_go.Tests.Ingestion.{message}

abbrev pub checked : String → Option GoError
checked token = if token == "good" then none else some (plain_error (lit "no" ∷ []))

abbrev pub read_envelope : List ℕ → Result Delivery
read_envelope [] = err (plain_error (lit "unexpected end of JSON input" ∷ []))
read_envelope (b ∷ bytes) = ok message

abbrev pub kept {ℓ} : {A : Type ℓ} → String → List ℕ → Message → A → Option GoError × A
kept id payload reason s = (none, s)

abbrev pub push : Push
push = record { authorization = "Bearer good"; sent = 123 ∷ 125 ∷ []; broken = none }

abbrev to_bucket : String → List ℕ → Message → List String → Option GoError × List String
to_bucket id payload reason names = (none, id ∷ names)

abbrev handler : Handler (List String)
handler = record {
  verify = checked;
  unmarshal = read_envelope;
  ingest = λ msg w. (some (plain_error (lit "malformed document" ∷ [])), (0, w));
  quarantine = to_bucket;
}

consume-Contract_example : Contract handler push [] (consume handler push [])
consume-Contract_example = consume-Contract handler push []

abbrev empty_opened : List ℕ → Decoder
empty_opened payload = record { tokens = []; fault = Fault.eof }

pub token_good : checked (bearer_token push) ≡ none
unfolding bearer_token cut_prefix
token_good = refl

pub body_read : read_body push ≡ complete (123 ∷ 125 ∷ [])
unfolding read_body
body_read = refl

abbrev parked : String → List ℕ → Message → ℕ → Option GoError × ℕ
parked id payload reason w = (none, 1)

abbrev account : Verifier
account = record { audience = "https://ingest"; service_account = "push@project" }

abbrev claims_of : String → String → Result Claims
claims_of token audience = ok (record { email = some "push@project"; email_verified = some true })

verify_iff_example : (verify claims_of account "eyJ" ≡ none) ↔ IsTrusted claims_of account "eyJ"
verify_iff_example = verify_iff claims_of account "eyJ" (cons-ne-nil _ _)
