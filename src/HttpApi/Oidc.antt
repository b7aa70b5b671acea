-- ===== src/HttpApi/Oidc.antt =====
-- internal/httpapi/oidc.go. `validate_token` is idtoken.Validate, a call of a Google library: it
-- checks the signature and the audience of a token and returns the claims.
pub mod Laws
use experiment_go.Prelude.{
  String, Bool, false, Option, none, some, [], ◌∷◌, ◌==◌, not, if◌then◌else◌,
}
use experiment_go.Prelude.Errors.{GoError, Result, ok, err, lit, quoted, plain_error, wrap_error}

-- The two claims that Verify reads: `none` where the claim is absent or of another type.
pub record Claims : Type 0 where
  pub email : Option String
  pub email_verified : Option Bool

pub record Verifier : Type 0 where
  pub audience : String
  pub service_account : String

abbrev pub or_empty : Option String → String
or_empty none = ""
or_empty (some s) = s

abbrev pub is_unverified : Option Bool → Bool
is_unverified none = false
is_unverified (some b) = not b

-- What Verify checks in the claims of a valid token.
unfoldable pub check_claims : Verifier → Result Claims → Option GoError
check_claims v (err e) = some (wrap_error (lit "oidc: validating token" ∷ []) e)
check_claims v (ok claims) =
    if or_empty claims.email == v.service_account
    then (if is_unverified claims.email_verified
        then some (plain_error (lit "oidc: token email is not verified" ∷ []))
        else none)
    else some (
        plain_error (
          lit "oidc: token belongs to "
          ∷ quoted (or_empty claims.email)
          ∷ lit ", want "
          ∷ quoted v.service_account
          ∷ []))

-- oidcVerifier.Verify
unfoldable pub verify : (String → String → Result Claims) → Verifier → String → Option GoError
unfolding check_claims
verify validate_token v token =
    if token == ""
    then some (plain_error (lit "oidc: no bearer token" ∷ []))
    else check_claims v (validate_token token v.audience)
