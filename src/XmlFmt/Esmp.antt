-- ===== src/XmlFmt/Esmp.antt =====
-- internal/consumption/xmlfmt/esmp.go. The package's other file is not in the repository: what the
-- parser calls of it is the record `Common`. The context is left out: the parser only passes it on.
pub mod Rounds
pub mod SeriesRounds
pub mod Canonical
pub mod Batches
pub mod PeriodBatches
pub mod SeriesBatches
pub mod Gather
pub mod GatherPeriod
pub mod GatherSeries
pub mod Blame
pub mod BlamePeriod
pub mod BlameSeries
pub mod Document
use Prim.Native.Nat.{◌-◌}
use experiment_go.Prelude.{
  ℕ, suc, ◌+◌, String, Bool, true, false, ◌||◌, Option, none, some, List, [], ◌∷◌, ◌++◌, ◌==◌, ltb,
  length, if◌then◌else◌,
}
use experiment_go.Prelude.Int.{ℤ, pos, leb_ℤ}
use experiment_go.Prelude.Errors.{
  GoError, Message, Result, ok, err, lit, str, quoted, num, malformed, wrap_sentinel, wrap_both,
}
use experiment_go.Consumption.{
  Float64, finite, Time, Reading, Parsing, quality_measured, quality_estimated, quality_missing,
  direction_consumption, direction_production, measure_gross,
}
use experiment_go.Consumption.Xml.{Name, Token, Fault, Decoder}
use experiment_go.Consumption.Registry.{Registry, register}
use experiment_go.XmlFmt.Decode.{
  fault_error, Read, skip, decode_text, decode_struct, decode_int, decode_float,
}
use experiment_go.XmlFmt.Loop.{Cursor, Step, stop, again, starved, loop}

-- What the parser uses of code that is not in the repository, and two parsers of the standard
-- library. `decode_interval` reads a timeInterval element into the text of its start.
pub record Common : Type 0 where
  pub default_batch_rows : ℕ
  pub max_readings_per_document : ℕ
  pub normalise_instant : String → String
  pub parse_resolution : String → Result ℤ
  pub interval_start : Time → ℤ → ℤ → Result Time
  pub require_point_context : String → String → Bool → Bool → Option GoError
  pub decode_interval : Fault → List Token → Read String
  pub parse_rfc3339 : String → Result Time
  pub parse_float : String → Result Float64

abbrev pub esmp_namespace : String
esmp_namespace = "urn:iec62325.351:tc57wg16:451-6:generationloaddocument:3:0"

-- The fields of an ESMP: batch_rows is positive.
pub record Esmp : Type 0 where
  pub batch_rows : ℕ

-- NewESMP, on a Go int
unfoldable pub new_esmp : Common → ℤ → Esmp
new_esmp common (pos n) = record {
  batch_rows = if leb_ℤ (pos n) (pos 0) then common.default_batch_rows else n;
}
new_esmp common _ = record { batch_rows = common.default_batch_rows }

-- quality
unfoldable pub quality : String → String
quality c =
    if c == "A02"
    then quality_missing
    else if c == "A03"
    then quality_estimated
    else quality_measured

-- direction
unfoldable pub direction : String → String
direction business_type =
    if business_type == "A01" then direction_production else direction_consumption

-- esmpPoint
pub record Point : Type 0 where
  pub position : ℤ
  pub quantity : Float64
  pub quality : String

abbrev pub set_position : Point → Result ℤ → Result Point
set_position p (err e) = err e
set_position p (ok n) = ok (record p { position = n })

abbrev pub set_quantity : Point → Result Float64 → Result Point
set_quantity p (err e) = err e
set_quantity p (ok x) = ok (record p { quantity = x })

-- The field of an esmpPoint that a child goes into.
unfoldable pub set_point : (String → Result Float64) → String → String → Point → Result Point
unfolding decode_int decode_float
set_point parse_float child text p =
    if child == "position"
    then set_position p (decode_int text)
    else if child == "quantity"
    then set_quantity p (decode_float parse_float text)
    else if child == "quality"
    then ok (record p { quality = text })
    else ok p

-- The field of an esmpMarketEvaluationPoint that a child goes into.
unfoldable pub set_mrid : String → String → String → Result String
set_mrid child text mrid = if child == "mRID" then ok text else ok mrid

abbrev pub no_point : Point
no_point = record { position = pos 0; quantity = finite false 0 (pos 0); quality = "" }

-- `flush` on the batch and the world that it changes.
abbrev pub Flush : Type 0 → Type 0
Flush W = List Reading → W → Option GoError × (List Reading × W)

-- The local variables of parseTimeSeries.
pub record Series : Type 0 where
  pub mrid : String
  pub business_type : String
  pub unit : String
  pub meter : String
  pub period_seen : Bool

-- The local variables of parsePeriod.
pub record Period : Type 0 where
  pub start_time : Time
  pub resolution : ℤ
  pub have_start : Bool
  pub have_res : Bool
  pub point_seen : Bool

abbrev pub new_series : Series
new_series = record { mrid = ""; business_type = ""; unit = ""; meter = ""; period_seen = false }

abbrev pub zero_time : Time
zero_time = record { seconds = pos 0; nanos = 0; zone = pos 0 }

abbrev pub new_period : Period
new_period = record {
  start_time = zero_time;
  resolution = pos 0;
  have_start = false;
  have_res = false;
  point_seen = false;
}
