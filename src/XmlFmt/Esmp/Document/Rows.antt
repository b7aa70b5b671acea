-- ===== src/XmlFmt/Esmp/Document/Rows.antt =====
-- The rounds of parsePeriod over its points, where nothing is flushed.
use experiment_go.Prelude.{
  ℕ, ◌+◌, ◌≤◌, ◌≡◌, refl, sym, String, Bool, true, false, Option, none, List, [], ◌∷◌, ◌++◌, All,
  arith, length, ltb, leb,
}
use mathlib.Core.List.{append-nil, append_assoc}
use mathlib.Core.Path.{subst₂}
use experiment_go.Prelude.Errors.{GoError}
use experiment_go.Consumption.{Reading}
use experiment_go.Consumption.Xml.{Token, Fault}
use experiment_go.XmlFmt.Loop.{Cursor, Step, again}
use experiment_go.XmlFmt.Esmp.{quality, direction, Common, Esmp, Period}
use experiment_go.XmlFmt.Esmp.Rounds.{
  append_reading, append_point, point_context, period_child, period_token, period_step,
}
use experiment_go.XmlFmt.Esmp.Gather.{to_batch, unflushed}
use experiment_go.XmlFmt.Esmp.Document.{
  Layout, PointText, PeriodText, point_fields, point_of, point_tokens, point_reading,
  point_readings, IsPoint, start_tag, indented,
}
use experiment_go.XmlFmt.Esmp.Document.Returns.{Returns, Returns-again}
use experiment_go.XmlFmt.Esmp.Document.Points.{decode_struct-point}

abbrev pub at_tokens : List Token → List Reading → ℕ → Cursor (Unit {0})
at_tokens tokens batch total = record { tokens = tokens; batch = batch; total = total; world = tt }

module _ (common : Common) (p : Esmp) (fault : Fault) where
  append_reading-within :
      (r : Reading) (tokens : List Token) (batch : List Reading) (total : ℕ)
      → total + 1 ≤ common.max_readings_per_document
      → append_reading common p fault to_batch r (at_tokens tokens batch total)
        ≡ (none, at_tokens tokens (batch ++ r ∷ []) (total + 1))
  unfolding append_reading
  append_reading-within r tokens batch total h =
      let within : ltb common.max_readings_per_document (total + 1) ≡ false = ground arith in
      rw within (
        unflushed common fault p p (leb p.batch_rows (length (batch ++ r ∷ [])))
          (at_tokens tokens (batch ++ r ∷ []) (total + 1)))

  module _ (layout : Layout) (meter business_type unit : String) (pd : PeriodText) where
    -- The local variables behind the start and the resolution.
    abbrev pub at_points : Bool → Period
    at_points seen = record {
      start_time = pd.start;
      resolution = pd.resolution;
      have_start = true;
      have_res = true;
      point_seen = seen;
    }

    abbrev pub step : Period → Cursor (Unit {0}) → Step (Unit {0}) Period
    step = period_step common p fault to_batch meter business_type unit

    abbrev pub row : PointText → Reading
    row = point_reading meter business_type unit pd.resolution

    append_point-within :
        (pt : PointText) (tokens : List Token) (batch : List Reading) (total : ℕ)
        → IsPoint common fault pd pt
        → total + 1 ≤ common.max_readings_per_document
        → append_point common p fault to_batch meter business_type unit pd.start pd.resolution
            (point_of pt)
            (at_tokens tokens batch total)
          ≡ (none, at_tokens tokens (batch ++ row pt ∷ []) (total + 1))
    unfolding append_point quality direction
    append_point-within pt tokens batch total h short =
        rw h.start (append_reading-within (row pt) tokens batch total short)

    point_round :
        (seen : Bool) (pt : PointText) (rest : List Token) (batch : List Reading) (total : ℕ)
        → point_context common p fault to_batch meter business_type unit (at_points seen) ≡ none
        → IsPoint common fault pd pt
        → total + 1 ≤ common.max_readings_per_document
        → step
            (at_points seen)
            (at_tokens (start_tag layout "Point" (point_fields layout pt rest)) batch total)
          ≡ again (at_points true) (at_tokens rest (batch ++ row pt ∷ []) (total + 1))
    unfolding period_token period_child
    point_round seen pt rest batch total context h short =
        rw
          (
            context,
            decode_struct-point layout fault common pd pt rest h,
            append_point-within pt rest batch total h short,
          )
          refl

    -- The white space before a child changes nothing.
    pub indented-Returns :
        (l : Period) (rest : List Token) (batch : List Reading) (total : ℕ)
        (r : Option GoError × Cursor (Unit {0}))
        → Returns step l (at_tokens rest batch total) r
        → Returns step l (at_tokens (indented layout rest) batch total) r
    unfolding period_token
    indented-Returns l rest batch total r =
        Returns-again step l (at_tokens (indented layout rest) batch total) l
          (at_tokens rest batch total) r refl

    abbrev pub rows : List PointText → List Reading
    rows = point_readings meter business_type unit pd.resolution

    -- If the loop returns `r` behind the points, with their rows in the batch, it returns `r`.
    pub points-Returns :
        (points : List PointText) (seen : Bool) (rest : List Token) (batch : List Reading)
        (total : ℕ) (r : Option GoError × Cursor (Unit {0}))
        → point_context common p fault to_batch meter business_type unit (at_points seen) ≡ none
        → All (IsPoint common fault pd) points
        → total + length points ≤ common.max_readings_per_document
        → ((s : Bool)
            → Returns step
                (at_points s)
                (at_tokens rest (batch ++ rows points) (total + length points))
                r)
        → Returns step (at_points seen) (at_tokens (point_tokens layout points rest) batch total) r
    points-Returns [] seen rest batch total r context all short k =
        subst₂ (λ b t. Returns step (at_points seen) (at_tokens rest b t) r) (append-nil batch)
          (omega arith) (k seen)
    points-Returns (pt ∷ points) seen rest batch total r context all short k =
        let behind = point_tokens layout points rest in
        let at_start = start_tag layout "Point" (point_fields layout pt behind) in
        let ready : total + 1 ≤ common.max_readings_per_document = omega (arith, short) in
        indented-Returns (at_points seen) at_start batch total r (
          Returns-again step (at_points seen) (at_tokens at_start batch total) (at_points true)
            (at_tokens behind (batch ++ row pt ∷ []) (total + 1)) r
            (point_round seen pt behind batch total context all.0 ready)
            (points-Returns points true rest (batch ++ row pt ∷ []) (total + 1) r refl all.1
              (omega (arith, short))
              (λ s.
                subst₂ (λ b t. Returns step (at_points s) (at_tokens rest b t) r)
                  (sym (append_assoc batch (row pt ∷ []) (rows points))) (omega arith) (k s))))
