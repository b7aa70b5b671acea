-- ===== src/Prelude/Errors.antt =====
-- Go errors: the sentinels that `errors.Is` finds in the chain, and the message before rendering.
-- A message is the list of its format pieces. `%w` splices in the pieces of the wrapped error.
use Prim.Native.String.{String}
use mathlib.Core.Bool.{Bool, true, false, ◌||◌}
use mathlib.Core.Option.{Option, none, some}
use mathlib.Core.List.{List, [], ◌∷◌, ◌++◌}
use experiment_go.Prelude.Int.{ℤ}

-- The error values that the program compares with `errors.Is`: its own, and those of migrate,
-- net/http and context.
pub data Sentinel : Type 0 where
  unknown_format malformed invalid_reading transient : Sentinel
  not_found invalid_title : Sentinel
  no_change nil_version server_closed canceled : Sentinel

abbrev pub same_sentinel : Sentinel → Sentinel → Bool
same_sentinel Sentinel.unknown_format Sentinel.unknown_format = true
same_sentinel Sentinel.malformed Sentinel.malformed = true
same_sentinel Sentinel.invalid_reading Sentinel.invalid_reading = true
same_sentinel Sentinel.transient Sentinel.transient = true
same_sentinel Sentinel.not_found Sentinel.not_found = true
same_sentinel Sentinel.invalid_title Sentinel.invalid_title = true
same_sentinel Sentinel.no_change Sentinel.no_change = true
same_sentinel Sentinel.nil_version Sentinel.nil_version = true
same_sentinel Sentinel.server_closed Sentinel.server_closed = true
same_sentinel Sentinel.canceled Sentinel.canceled = true
same_sentinel _ _ = false

-- One piece of a message: literal text, `%s`, `%q`, `%d`, or a duration under `%s`.
pub data Piece : Type 0 where
  lit str quoted : String → Piece
  num dur : ℤ → Piece

abbrev pub Message : Type 0
Message = List Piece

pub record GoError : Type 0 where
  pub chain : List Sentinel
  pub message : Message

abbrev pub has_sentinel : Sentinel → List Sentinel → Bool
has_sentinel s [] = false
has_sentinel s (x ∷ xs) = same_sentinel x s || has_sentinel s xs

-- errors.Is(err, s)
abbrev pub is_error : GoError → Sentinel → Bool
is_error e s = has_sentinel s e.chain

-- The text of each sentinel, as its `errors.New` gives it.
abbrev pub sentinel_text : Sentinel → String
sentinel_text Sentinel.unknown_format = "unknown document format"
sentinel_text Sentinel.malformed = "malformed document"
sentinel_text Sentinel.invalid_reading = "invalid reading"
sentinel_text Sentinel.transient = "transient failure"
sentinel_text Sentinel.not_found = "task not found"
sentinel_text Sentinel.invalid_title = "task title must not be blank"
sentinel_text Sentinel.no_change = "no change"
sentinel_text Sentinel.nil_version = "no migration"
sentinel_text Sentinel.server_closed = "http: Server closed"
sentinel_text Sentinel.canceled = "context canceled"

-- The sentinel as an error of its own.
abbrev pub sentinel : Sentinel → GoError
sentinel s = record { chain = s ∷ []; message = lit (sentinel_text s) ∷ [] }

-- fmt.Errorf("%w: …", s, …)
abbrev pub wrap_sentinel : Sentinel → Message → GoError
wrap_sentinel s rest = record { chain = s ∷ []; message = lit (sentinel_text s) ∷ lit ": " ∷ rest }

-- fmt.Errorf("…: %w", …, err)
abbrev pub wrap_error : Message → GoError → GoError
wrap_error before e = record { chain = e.chain; message = before ++ lit ": " ∷ e.message }

-- fmt.Errorf("%w: …: %w", s, …, err)
abbrev pub wrap_both : Sentinel → Message → GoError → GoError
wrap_both s before e = record {
  chain = s ∷ e.chain;
  message = lit (sentinel_text s) ∷ lit ": " ∷ before ++ lit ": " ∷ e.message;
}

-- fmt.Errorf with no `%w`, and errors.New
abbrev pub plain_error : Message → GoError
plain_error message = record { chain = []; message = message }

-- Go's `(value, error)` where the value is meaningless beside an error.
pub data Result {ℓ} (A : Type ℓ) : Type ℓ where
  ok : A → Result A
  err : GoError → Result A

infixl 5 ◌>>=◌
abbrev pub ◌>>=◌ {ℓ κ} : {A : Type ℓ} {B : Type κ} → Result A → (A → Result B) → Result B
ok a >>= f = f a
err e >>= f = err e

-- errors.Join of two errors.
abbrev pub join_errors : Option GoError → Option GoError → Option GoError
join_errors none none = none
join_errors (some e) none = some e
join_errors none (some e) = some e
join_errors (some a) (some b) =
    some (record { chain = a.chain ++ b.chain; message = a.message ++ lit "\n" ∷ b.message })

-- A wrapped error, if there is one.
abbrev pub wrap_if : Message → Option GoError → Option GoError
wrap_if doing none = none
wrap_if doing (some e) = some (wrap_error doing e)
