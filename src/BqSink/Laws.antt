-- ===== src/BqSink/Laws.antt =====
-- When a write is retried, and what the sink reports as stored.
use experiment_go.Prelude.{◌≡◌, ◌↔◌, ◌⊎◌, true, false, arith}
use experiment_go.Prelude.Errors.{is_error, transient}
use experiment_go.BqSink.{
  Code, canceled, deadline_exceeded, resource_exhausted, internal, unavailable, ClientError,
  classify,
}

-- The codes of failures that pass.
abbrev pub Passes : Code → Type 0
Passes c =
    (c ≡ unavailable)
    ⊎ (c ≡ deadline_exceeded)
    ⊎ (c ≡ resource_exhausted)
    ⊎ (c ≡ internal)
    ⊎ (c ≡ canceled)

transient-Passes :
    (e : ClientError)
    → is_error e.error transient ≡ false
    → is_error (classify e) transient ≡ true
    → Passes e.code
unfolding classify
transient-Passes e foreign h = ground arith

transient_of_Passes : (e : ClientError) → Passes e.code → is_error (classify e) transient ≡ true
unfolding classify
transient_of_Passes e h = ground arith

-- An error of the client that is not marked by the program itself is classified as one to retry
-- exactly if its code is one of the five of failures that pass.
pub classify-transient_iff :
    (e : ClientError)
    → is_error e.error transient ≡ false
    → (is_error (classify e) transient ≡ true) ↔ Passes e.code
classify-transient_iff e foreign = (transient-Passes e foreign, transient_of_Passes e)
