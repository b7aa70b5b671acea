-- ===== src/BqSink/Schema.antt =====
-- internal/consumption/bqsink/schema.go: the columns of the table, and the row of a reading. A row is
-- a list of names and values in the order of the columns; the map of the source has no order.
use experiment_go.Prelude.{arith, ◌/◌, ◌≡◌, String, Bool, true, List, [], ◌∷◌}
use experiment_go.Prelude.Int.{ℤ, ◌+ℤ◌, ◌-ℤ◌, ◌*ℤ◌, pos, negsuc, quot, IsInt64, wrap64-IsInt64}
use experiment_go.Consumption.{Float64, Time, utc, unix_epoch, unix_micro, Reading}

-- The types of bigquery.FieldSchema that the table uses.
pub data FieldType : Type 0 where
  string_field timestamp_field integer_field float_field : FieldType

pub record Column : Type 0 where
  pub name : String
  pub field_type : FieldType
  pub required : Bool

abbrev required_column : String → FieldType → Column
required_column name type_ = record { name = name; field_type = type_; required = true }

-- TableSchema
unfoldable pub table_schema : List Column
table_schema =
    required_column "metering_point_id" string_field
    ∷ required_column "interval_start" timestamp_field
    ∷ required_column "resolution_sec" integer_field
    ∷ required_column "value" float_field
    ∷ required_column "unit" string_field
    ∷ required_column "quality" string_field
    ∷ required_column "direction" string_field
    ∷ required_column "measure" string_field
    ∷ required_column "source_message_id" string_field
    ∷ required_column "ingested_at" timestamp_field
    ∷ []

-- The dynamic types of the values: string, int64, float64.
pub data Value : Type 0 where
  text : String → Value
  int64 : ℤ → Value
  float64 : Float64 → Value

-- readingToValues
unfoldable pub reading_to_values : Reading → List (String × Value)
unfolding unix_micro
reading_to_values r =
    ("metering_point_id", text r.metering_point_id)
    ∷ ("interval_start", int64 (unix_micro (utc r.start)))
    ∷ ("resolution_sec", int64 (quot r.resolution 1_000_000_000))
    ∷ ("value", float64 r.value)
    ∷ ("unit", text r.unit)
    ∷ ("quality", text r.quality)
    ∷ ("direction", text r.direction)
    ∷ ("measure", text r.measure)
    ∷ ("source_message_id", text r.source_message_id)
    ∷ ("ingested_at", int64 (unix_micro (utc r.ingested_at)))
    ∷ []

-- The value has the Go type that the storage API takes for the column: a timestamp is an int64 of
-- microseconds.
abbrev pub Fits : FieldType → Value → Type 0
Fits string_field (text s) = Unit
Fits timestamp_field (int64 n) = IsInt64 n
Fits integer_field (int64 n) = IsInt64 n
Fits float_field (float64 x) = Unit
Fits _ _ = ⊥

-- The row names every column of the schema, no other, and holds a value of its type.
abbrev pub MatchesSchema : List Column → List (String × Value) → Type 0
MatchesSchema [] [] = Unit
MatchesSchema (c ∷ columns) ((name, value) ∷ row) =
    (c.name ≡ name) × Fits c.field_type value × MatchesSchema columns row
MatchesSchema _ _ = ⊥

unix_micro-IsInt64 : (t : Time) → IsInt64 (unix_micro t)
unfolding unix_micro
unix_micro-IsInt64 t =
    wrap64-IsInt64 ((t.seconds -ℤ unix_epoch) *ℤ pos 1_000_000 +ℤ pos (t.nanos / 1000))

quot-IsInt64 : (a : ℤ) → IsInt64 a → IsInt64 (quot a 1_000_000_000)
quot-IsInt64 (pos n) h = ground arith
quot-IsInt64 (negsuc n) h = ground arith

-- The row of a reading whose resolution is an int64 names exactly the columns of the table and holds
-- a value of each column's type; the integers are int64.
pub reading_to_values-MatchesSchema :
    (r : Reading) → IsInt64 r.resolution → MatchesSchema table_schema (reading_to_values r)
unfolding table_schema reading_to_values
reading_to_values-MatchesSchema r h =
    let start = unix_micro-IsInt64 (utc r.start) in
    let ingested = unix_micro-IsInt64 (utc r.ingested_at) in
    let seconds = quot-IsInt64 r.resolution h in ground (arith, start, ingested, seconds)
