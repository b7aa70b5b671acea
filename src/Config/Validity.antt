-- ===== src/Config/Validity.antt =====
-- Which configurations `validate` accepts.
use experiment_go.Prelude.{
  ◌≡◌, ◌≢◌, ◌↔◌, ◌⊎◌, String, true, none, eq_iff, Bool-cases, inl, inr, arith,
}
use experiment_go.Prelude.Int.{pos, ◌≤ℤ◌}
use experiment_go.Prelude.Text.{lower_is}
use experiment_go.Config.{Config, Ingest, validate, validate_ingest}

-- The ingest settings are complete.
pub record IsComplete (i : Ingest) : Type 0 where
  pub audience : ◌≢◌ {A = String} i.audience ""
  pub push_service_account : ◌≢◌ {A = String} i.push_service_account ""
  pub bq_dataset : ◌≢◌ {A = String} i.bq_dataset ""
  pub bq_table : ◌≢◌ {A = String} i.bq_table ""
  pub quarantine_bucket : ◌≢◌ {A = String} i.quarantine_bucket ""
  pub batch_rows : pos 1 ≤ℤ i.batch_rows

pub record IsValid (c : Config) : Type 0 where
  pub port : (pos 1 ≤ℤ c.http.port) × (c.http.port ≤ℤ pos 65535)
  pub database : (c.ingest.enabled ≡ true) ⊎ (◌≢◌ {A = String} c.db.dsn "")
  pub conns : c.db.min_conns ≤ℤ c.db.max_conns
  pub format : (lower_is c.logger.format "json" ≡ true) ⊎ (lower_is c.logger.format "text" ≡ true)
  pub ingest : c.ingest.enabled ≡ true → IsComplete c.ingest

IsComplete-validate : (i : Ingest) → validate_ingest i ≡ none → i.enabled ≡ true → IsComplete i
unfolding validate_ingest
IsComplete-validate i h on = record {
  audience = λ e. ground (arith, (eq_iff i.audience "").1 e);
  push_service_account = λ e. ground (arith, (eq_iff i.push_service_account "").1 e);
  bq_dataset = λ e. ground (arith, (eq_iff i.bq_dataset "").1 e);
  bq_table = λ e. ground (arith, (eq_iff i.bq_table "").1 e);
  quarantine_bucket = λ e. ground (arith, (eq_iff i.quarantine_bucket "").1 e);
  batch_rows = ground arith;
}

validate_of_IsComplete : (i : Ingest) → (i.enabled ≡ true → IsComplete i) → validate_ingest i ≡ none
unfolding validate_ingest
validate_of_IsComplete i h = elim (Bool-cases i.enabled) [
  | inl on ↦
      let complete = h on in
      ground (
        arith,
        on,
        complete.audience,
        complete.push_service_account,
        complete.bq_dataset,
        complete.bq_table,
        complete.quarantine_bucket,
        complete.batch_rows,
        eq_iff i.audience "",
        eq_iff i.push_service_account "",
        eq_iff i.bq_dataset "",
        eq_iff i.bq_table "",
        eq_iff i.quarantine_bucket "",
      )
  | inr off ↦ ground (arith, off)
]

IsValid-validate : (c : Config) → validate c ≡ none → IsValid c
unfolding validate
IsValid-validate c h = record {
  port = ground arith;
  database = elim (Bool-cases c.ingest.enabled) [
    | inl on ↦ inl on
    | inr off ↦ inr (λ e. ground (arith, off, (eq_iff c.db.dsn "").1 e))
  ];
  conns = ground arith;
  format = elim (Bool-cases (lower_is c.logger.format "json")) [
    | inl json ↦ inl json
    | inr other ↦ inr (ground arith)
  ];
  ingest = IsComplete-validate c.ingest (ground arith);
}

validate_of_IsValid : (c : Config) → IsValid c → validate c ≡ none
unfolding validate
validate_of_IsValid c v =
    let settings : validate_ingest c.ingest ≡ none = validate_of_IsComplete c.ingest v.ingest in
    ground (arith, settings, v.port, v.database, v.conns, v.format, eq_iff c.db.dsn "")

-- A configuration is accepted exactly if the port lies in 1 to 65535, a database is configured or
-- this is the ingest role, the connection bounds are in order, the log format is json or text in any
-- case of letters, and, in the ingest role, every required setting is there and the batch size is
-- positive.
pub validate_settings_iff : (c : Config) → (validate c ≡ none) ↔ IsValid c
validate_settings_iff c = (IsValid-validate c, validate_of_IsValid c)
