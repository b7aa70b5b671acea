-- ===== src/HttpApi/Oidc/Laws.antt =====
-- Which tokens Verify accepts.
use experiment_go.Prelude.{
  ◌≡◌, ◌≢◌, ◌↔◌, String, Bool, true, false, Option, none, some, ◌==◌, arith, eq_iff, Bool-cases,
  inl, inr, refl,
}
use experiment_go.Prelude.Errors.{Result, ok, err}
use experiment_go.HttpApi.Oidc.{Claims, Verifier, or_empty, is_unverified, check_claims, verify}

module _ (validate_token : String → String → Result Claims) (v : Verifier) (token : String) where
  -- The token is valid for the audience, names the service account, and does not say that the
  -- account's address is unverified.
  pub record IsTrusted : Type 0 where
    pub present : ◌≢◌ {A = String} token ""
    pub claims : Claims
    pub valid : validate_token token v.audience ≡ ok claims
    pub owner : claims.email ≡ some v.service_account
    pub confirmed : claims.email_verified ≢ some false

  -- What the check of the claims establishes.
  abbrev Sound : Result Claims → Type 0
  Sound (err e) = ⊥
  Sound (ok claims) =
      (or_empty claims.email ≡ v.service_account) × (is_unverified claims.email_verified ≡ false)

  check_claims-Sound : (r : Result Claims) → check_claims v r ≡ none → Sound r
  unfolding check_claims
  check_claims-Sound (err e) h = cc
  check_claims-Sound (ok claims) h =
      ground (arith, eq_iff (or_empty claims.email) v.service_account)

  owner_of :
      (o : Option String)
      → ◌≢◌ {A = String} v.service_account ""
      → or_empty o ≡ v.service_account
      → o ≡ some v.service_account
  owner_of none set e = absurd (set (rw (← e) refl))
  owner_of (some s) set e = rw e

  confirmed_of : (o : Option Bool) → is_unverified o ≡ false → o ≢ some false
  confirmed_of none h = cc
  confirmed_of (some true) h = cc
  confirmed_of (some false) h = cc

  trusted_of :
      (r : Result Claims)
      → ◌≢◌ {A = String} v.service_account ""
      → ◌≢◌ {A = String} token ""
      → validate_token token v.audience ≡ r
      → Sound r
      → IsTrusted
  trusted_of (err e) set here valid h = absurd h
  trusted_of (ok claims) set here valid h = record {
    present = here;
    claims = claims;
    valid = valid;
    owner = owner_of claims.email set h.0;
    confirmed = confirmed_of claims.email_verified h.1;
  }

  verify-IsTrusted :
      ◌≢◌ {A = String} v.service_account "" → verify validate_token v token ≡ none → IsTrusted
  unfolding verify
  verify-IsTrusted set h = elim (Bool-cases (token == "")) [
    | inl e ↦ let wrong = rw e at h in cc
    | inr e ↦
        trusted_of (validate_token token v.audience) set
          (λ q. ground (arith, (eq_iff token "").1 q)) refl
          (check_claims-Sound (validate_token token v.audience) (rw e at h))
  ]

  unverified_of : (o : Option Bool) → o ≢ some false → is_unverified o ≡ false
  unverified_of none h = refl
  unverified_of (some true) h = refl
  unverified_of (some false) h = absurd (h refl)

  verify_of_IsTrusted : IsTrusted → verify validate_token v token ≡ none
  unfolding verify check_claims
  verify_of_IsTrusted t = ground (
    arith,
    t.present,
    t.valid,
    t.owner,
    unverified_of t.claims.email_verified t.confirmed,
    eq_iff token "",
    eq_iff v.service_account v.service_account,
  )

  -- With a service account configured, a token is accepted exactly if it is there, is valid for the
  -- audience, names that account as its email claim, and does not carry an email_verified claim that
  -- is false. A token with no email claim is refused, one with no email_verified claim is accepted.
  pub verify_iff :
      ◌≢◌ {A = String} v.service_account "" → (verify validate_token v token ≡ none) ↔ IsTrusted
  verify_iff set = (verify-IsTrusted set, verify_of_IsTrusted)
