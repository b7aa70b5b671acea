-- ===== src/Consumption.antt =====
-- internal/consumption/consumption.go: the reading, its domain rules, messages, and the contracts of
-- parsers and sinks.
pub mod Xml
pub mod Validation
pub mod Registry
pub mod Service
use Xml.{Decoder, Name}
use experiment_go.Prelude.{
  ℕ, ◌/◌, ◌≡◌, String, Bool, true, false, ◌&&◌, Option, none, some, List, [], ◌∷◌, ◌==◌, eqb,
  if◌then◌else◌,
}
use experiment_go.Prelude.Int.{ℤ, pos, eqb_ℤ, leb_ℤ, ◌+ℤ◌, ◌-ℤ◌, ◌*ℤ◌, wrap64}
use experiment_go.Prelude.Errors.{GoError, lit, dur, invalid_reading, wrap_sentinel}
use experiment_go.Prelude.Text.{trim_space}

-- A float64: negative or not, and a magnitude scaled by a power of two.
pub data Float64 : Type 0 where
  nan : Float64
  inf : (is_negative : Bool) → Float64
  finite : (is_negative : Bool) (mantissa : ℕ) (exponent : ℤ) → Float64

-- math.IsNaN(v) || math.IsInf(v, 0)
abbrev pub not_finite : Float64 → Bool
not_finite nan = true
not_finite (inf s) = true
not_finite (finite s m e) = false

-- A time.Time: seconds since 1 January of year 1 UTC, nanoseconds within the second, and the offset
-- of its location from UTC in seconds.
pub record Time : Type 0 where
  pub seconds : ℤ
  pub nanos : ℕ
  pub zone : ℤ

-- t.IsZero()
abbrev pub is_zero : Time → Bool
is_zero t = eqb_ℤ t.seconds (pos 0) && eqb t.nanos 0

-- t.UTC()
abbrev pub utc : Time → Time
utc t = record t { zone = pos 0 }

-- Seconds from the zero time to 1 January 1970.
abbrev pub unix_epoch : ℤ
unix_epoch = pos 62_135_596_800

-- t.UnixMicro(), computed in int64
unfoldable pub unix_micro : Time → ℤ
unix_micro t = wrap64 ((t.seconds -ℤ unix_epoch) *ℤ pos 1_000_000 +ℤ pos (t.nanos / 1000))

-- The values of the quality, direction and measure columns.
abbrev pub quality_measured : String
quality_measured = "measured"

abbrev pub quality_estimated : String
quality_estimated = "estimated"

abbrev pub quality_missing : String
quality_missing = "missing"

abbrev pub direction_consumption : String
direction_consumption = "consumption"

abbrev pub direction_production : String
direction_production = "production"

abbrev pub measure_gross : String
measure_gross = "gross"

abbrev pub measure_net : String
measure_net = "net"

-- One metered interval. A time.Duration is its nanoseconds.
pub record Reading : Type 0 where
  pub metering_point_id : String
  pub start : Time
  pub resolution : ℤ
  pub value : Float64
  pub unit : String
  pub quality : String
  pub direction : String
  pub measure : String
  pub source_message_id : String
  pub ingested_at : Time

-- Reading.Validate: `none` is Go's nil error.
unfoldable pub validate : Reading → Option GoError
validate r =
    if trim_space r.metering_point_id == ""
    then some (wrap_sentinel invalid_reading (lit "blank metering point" ∷ []))
    else if is_zero r.start
    then some (wrap_sentinel invalid_reading (lit "zero interval start" ∷ []))
    else if leb_ℤ r.resolution (pos 0)
    then some (
        wrap_sentinel invalid_reading
          (lit "resolution " ∷ dur r.resolution ∷ lit " must be positive" ∷ []))
    else if not_finite r.value
    then some (wrap_sentinel invalid_reading (lit "value is not finite" ∷ []))
    else if r.unit == ""
    then some (wrap_sentinel invalid_reading (lit "blank unit" ∷ []))
    else if r.measure == ""
    then some (wrap_sentinel invalid_reading (lit "blank measure" ∷ []))
    else none

-- A delivery of the messaging layer. The payload is a list of bytes.
pub record Delivery : Type 0 where
  pub id : String
  pub payload : List ℕ
  pub attributes : List (String × String)

-- What a run of Parser.Parse does, seen from outside: it hands batches to `emit`, goes on with the
-- error that `emit` returns, and ends with an error or nil.
pub data Parsing : Type 0 where
  finish : Option GoError → Parsing
  emit : List Reading → (Option GoError → Parsing) → Parsing

-- Such a run over the function that is passed for `emit`, on a state that this function changes.
unfoldable pub run_parsing {ℓ} :
    {S : Type ℓ} → Parsing → (List Reading → S → Option GoError × S) → S → Option GoError × S
run_parsing (finish e) f s = (e, s)
run_parsing (emit batch next) f s = let (e, s') = f batch s in run_parsing (next e) f s'

-- Parser, on the decoder after the root element and the root's name.
abbrev pub Parser : Type 0
Parser = Decoder → Name → Parsing

-- Sink, on a world that writing changes.
abbrev pub Sink : Type 0 → Type 0
Sink W = List Reading → W → Option GoError × W

-- The contract that Parser states for `emit`: a parser stops at the first error that `emit`
-- returns, and returns that error.
pub data StopsOnError : Parsing → Type 0 where
  finish : (e : Option GoError) → StopsOnError (Parsing.finish e)
  emit :
      (batch : List Reading) (next : Option GoError → Parsing)
      → ((e : GoError) → next (some e) ≡ Parsing.finish (some e))
      → StopsOnError (next none)
      → StopsOnError (Parsing.emit batch next)
