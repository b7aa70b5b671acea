-- ===== src/HttpApi/Response.antt =====
-- internal/httpapi/response.go, and the answers of the handlers. A JSON body is the value that is
-- encoded, before encoding/json writes it.
use experiment_go.Prelude.{ℕ, String, List, []}
use experiment_go.Prelude.Errors.{Message}

-- A body of type `D` under "data", the body of an error, or none.
pub data Body (D : Type 0) : Type 0 where
  empty : Body D
  content : D → Body D
  failure : Message → Body D

pub record Response (D : Type 0) : Type 0 where
  pub status : ℕ
  pub body : Body D
  pub headers : List (String × String)

-- respondError
abbrev pub respond_error : {D : Type 0} → ℕ → Message → Response D
respond_error status message = record { status = status; body = failure message; headers = [] }

-- c.JSON(status, gin.H{"data": d})
abbrev pub respond_data : {D : Type 0} → ℕ → D → Response D
respond_data status d = record { status = status; body = content d; headers = [] }

-- c.Status(status)
abbrev pub respond_status : {D : Type 0} → ℕ → Response D
respond_status status = record { status = status; body = empty; headers = [] }
