-- ===== src/Consumption/Validation.antt =====
-- What `validate` accepts.
use experiment_go.Prelude.{
  String, ◌≡◌, ◌≢◌, ◌↔◌, none, some, [], ◌∷◌, false, arith, ◌==◌, eq_iff, Bool-cases, inl, inr,
}
use experiment_go.Prelude.Int.{pos, ◌<ℤ◌}
use experiment_go.Prelude.Errors.{GoError, invalid_reading}
use experiment_go.Prelude.Text.{trim_space}
use experiment_go.Prelude.Text.Trim.{IsBlank, trim_space_iff}
use experiment_go.Consumption.{Reading, not_finite, is_zero, validate}

-- The domain rules of a reading.
pub record IsValid (r : Reading) : Type 0 where
  pub named : ¬ IsBlank r.metering_point_id
  pub started : is_zero r.start ≡ false
  pub lasting : pos 0 <ℤ r.resolution
  pub is_finite : not_finite r.value ≡ false
  pub measured_in : ◌≢◌ {A = String} r.unit ""
  pub measured_as : ◌≢◌ {A = String} r.measure ""

IsValid-validate : (r : Reading) → validate r ≡ none → IsValid r
unfolding validate
IsValid-validate r h = record {
  named = λ b. ground (arith, (trim_space_iff r.metering_point_id).1 b);
  started = ground arith;
  lasting = ground arith;
  is_finite = ground arith;
  measured_in = λ e. ground (arith, (eq_iff r.unit "").1 e);
  measured_as = λ e. ground (arith, (eq_iff r.measure "").1 e);
}

validate_of_IsValid : (r : Reading) → IsValid r → validate r ≡ none
unfolding validate
validate_of_IsValid r v = elim (Bool-cases (trim_space r.metering_point_id == "")) [
  | inl e ↦ absurd (v.named ((trim_space_iff r.metering_point_id).0 e))
  | inr e ↦ ground (arith, eq_iff r.unit "", eq_iff r.measure "")
]

-- A reading is accepted exactly if it satisfies all six domain rules: a metering point that is not
-- blank, a start other than the zero time, a positive resolution, a finite value, a unit and a
-- measure.
pub validate_iff : (r : Reading) → (validate r ≡ none) ↔ IsValid r
validate_iff r = (IsValid-validate r, validate_of_IsValid r)

-- Every refusal wraps `invalid_reading` and nothing else.
pub validate-chain :
    (r : Reading) (e : GoError) → validate r ≡ some e → e.chain ≡ invalid_reading ∷ []
unfolding validate
validate-chain r e h = ground arith
