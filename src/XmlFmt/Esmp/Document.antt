-- ===== src/XmlFmt/Esmp/Document.antt =====
-- What a TimeSeries element says, apart from its XML: the text of each field with the value that it
-- stands for, the tokens that it is written as, and the readings that it means.
pub mod Returns
pub mod Total
pub mod Points
pub mod Rows
pub mod Periods
pub mod Series
pub mod Scalars
pub mod RoundTrip
use experiment_go.Prelude.{
  ℕ, ◌+◌, ◌≡◌, String, true, Option, none, some, List, [], ◌∷◌, ◌++◌, All, length, map, ◌==◌,
  if◌then◌else◌,
}
use experiment_go.Prelude.Int.{ℤ}
use experiment_go.Prelude.Errors.{ok}
use experiment_go.Consumption.{
  Float64, Time, Reading, quality_measured, quality_estimated, quality_missing,
  direction_consumption, direction_production, measure_gross,
}
use experiment_go.Consumption.Xml.{Token, Fault}
use experiment_go.XmlFmt.Decode.{decode_int, decode_float}
use experiment_go.XmlFmt.Esmp.{Common, Point, zero_time}

-- How the document is written: the namespace of its names, and the white space before a child.
pub record Layout : Type 0 where
  pub namespace : String
  pub indent : String

-- A Point, which may leave out its quality. `start` is the start of its interval.
pub record PointText : Type 0 where
  pub position_text : String
  pub quantity_text : String
  pub quality_text : Option String
  pub position : ℤ
  pub quantity : Float64
  pub start : Time

-- A Period. `interval` is what stands between the tags of timeInterval, with the end tag.
pub record PeriodText : Type 0 where
  pub interval : List Token
  pub start_text : String
  pub resolution_text : String
  pub start : Time
  pub resolution : ℤ
  pub points : List PointText

-- A TimeSeries, which may leave out its evaluation point.
pub record SeriesText : Type 0 where
  pub mrid : String
  pub business_type : String
  pub unit : String
  pub evaluation_point : Option String
  pub periods : List PeriodText

module _ (layout : Layout) where
  abbrev pub start_tag : String → List Token → List Token
  start_tag name rest =
      Token.start_element (record { space = layout.namespace; local = name }) ∷ rest

  abbrev pub end_tag : String → List Token → List Token
  end_tag name rest = Token.end_element (record { space = layout.namespace; local = name }) ∷ rest

  abbrev pub indented : List Token → List Token
  indented rest = Token.char_data layout.indent ∷ rest

  abbrev pub scalar : String → String → List Token → List Token
  scalar name text rest = indented (start_tag name (Token.char_data text ∷ end_tag name rest))

  abbrev pub optional : String → Option String → List Token → List Token
  optional name none rest = rest
  optional name (some text) rest = scalar name text rest

  -- The fields of a point and its end tag.
  abbrev pub point_fields : PointText → List Token → List Token
  point_fields pt rest = scalar "position" pt.position_text (
      scalar "quantity" pt.quantity_text
        (optional "quality" pt.quality_text (indented (end_tag "Point" rest))))

  abbrev pub point_tokens : List PointText → List Token → List Token
  point_tokens [] rest = rest
  point_tokens (pt ∷ points) rest =
      indented (start_tag "Point" (point_fields pt (point_tokens points rest)))

  -- The children of a Period and its end tag.
  abbrev pub period_fields : PeriodText → List Token → List Token
  period_fields pd rest = indented (
      start_tag "timeInterval" (
        pd.interval
        ++ scalar "resolution" pd.resolution_text
            (point_tokens pd.points (indented (end_tag "Period" rest)))))

  abbrev pub period_tokens : List PeriodText → List Token → List Token
  period_tokens [] rest = rest
  period_tokens (pd ∷ periods) rest =
      indented (start_tag "Period" (period_fields pd (period_tokens periods rest)))

  abbrev pub evaluation_tokens : Option String → List Token → List Token
  evaluation_tokens none rest = rest
  evaluation_tokens (some text) rest = indented (
      start_tag "MarketEvaluationPoint"
        (scalar "mRID" text (indented (end_tag "MarketEvaluationPoint" rest))))

  -- The children of a TimeSeries and its end tag.
  abbrev pub series_fields : SeriesText → List Token → List Token
  series_fields s rest = scalar "mRID" s.mrid (
      scalar "businessType" s.business_type (
        scalar "quantity_Measure_Unit.name" s.unit (
          evaluation_tokens s.evaluation_point
            (period_tokens s.periods (indented (end_tag "TimeSeries" rest))))))

abbrev pub stated : Option String → String
stated none = ""
stated (some text) = text

abbrev pub point_of : PointText → Point
point_of pt = record {
  position = pt.position;
  quantity = pt.quantity;
  quality = stated pt.quality_text;
}

-- The codes with their meanings, and what any other text means.
abbrev meaning : List (String × String) → String → String → String
meaning [] otherwise text = otherwise
meaning ((code, word) ∷ codes) otherwise text =
    if text == code then word else meaning codes otherwise text

abbrev quality_meaning : String → String
quality_meaning =
    meaning (("A02", quality_missing) ∷ ("A03", quality_estimated) ∷ []) quality_measured

abbrev direction_meaning : String → String
direction_meaning = meaning (("A01", direction_production) ∷ []) direction_consumption

-- The reading that a point means.
abbrev pub point_reading : (meter business_type unit : String) → ℤ → PointText → Reading
point_reading meter business_type unit resolution pt = record {
  metering_point_id = meter;
  start = pt.start;
  resolution = resolution;
  value = pt.quantity;
  unit = unit;
  quality = quality_meaning (stated pt.quality_text);
  direction = direction_meaning business_type;
  measure = measure_gross;
  source_message_id = "";
  ingested_at = zero_time;
}

-- The readings that the points of a period mean, in their order.
abbrev pub point_readings : (meter business_type unit : String) → ℤ → List PointText → List Reading
point_readings meter business_type unit resolution [] = []
point_readings meter business_type unit resolution (pt ∷ points) =
    point_reading meter business_type unit resolution pt
    ∷ point_readings meter business_type unit resolution points

abbrev pub period_readings : (meter business_type unit : String) → List PeriodText → List Reading
period_readings meter business_type unit [] = []
period_readings meter business_type unit (pd ∷ periods) =
    point_readings meter business_type unit pd.resolution pd.points
    ++ period_readings meter business_type unit periods

-- The evaluation point names the meter, or else the series does.
abbrev pub meter_name : SeriesText → String
meter_name s = if stated s.evaluation_point == "" then s.mrid else stated s.evaluation_point

abbrev pub series_readings : SeriesText → List Reading
series_readings s = period_readings (meter_name s) s.business_type s.unit s.periods

module _ (common : Common) (fault : Fault) where
  -- The texts stand for the values.
  pub record IsPoint (pd : PeriodText) (pt : PointText) : Type 0 where
    pub position : decode_int pt.position_text ≡ ok pt.position
    pub quantity : decode_float common.parse_float pt.quantity_text ≡ ok pt.quantity
    pub start : common.interval_start pd.start pt.position pd.resolution ≡ ok pt.start

  pub record IsPeriod (meter unit : String) (pd : PeriodText) : Type 0 where
    pub interval :
        (rest : List Token)
        → common.decode_interval fault (pd.interval ++ rest) ≡ (ok pd.start_text, rest)
    pub start : common.parse_rfc3339 (common.normalise_instant pd.start_text) ≡ ok pd.start
    pub resolution : common.parse_resolution pd.resolution_text ≡ ok pd.resolution
    pub context : common.require_point_context meter unit true true ≡ none
    pub points : All (IsPoint pd) pd.points

  abbrev pub IsSeries : SeriesText → Type 0
  IsSeries s = All (IsPeriod (meter_name s) s.unit) s.periods
