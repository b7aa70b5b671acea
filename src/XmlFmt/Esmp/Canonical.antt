-- ===== src/XmlFmt/Esmp/Canonical.antt =====
-- The rows that the parser makes use the canonical vocabulary.
use experiment_go.Prelude.{◌≡◌, ◌⊎◌, refl, String, arith}
use experiment_go.Consumption.{
  Reading, quality_measured, quality_estimated, quality_missing, direction_consumption,
  direction_production, measure_gross,
}
use experiment_go.Prelude.Int.{ℤ}
use experiment_go.Consumption.{Time}
use experiment_go.XmlFmt.Esmp.{quality, direction, Point}
use experiment_go.XmlFmt.Esmp.Rounds.{reading_of}

pub record IsCanonical (r : Reading) : Type 0 where
  pub known_quality :
      (r.quality ≡ quality_measured)
      ⊎ (r.quality ≡ quality_estimated)
      ⊎ (r.quality ≡ quality_missing)
  pub known_direction : (r.direction ≡ direction_consumption) ⊎ (r.direction ≡ direction_production)
  pub gross : r.measure ≡ measure_gross

pub reading_of-IsCanonical :
    (meter business_type unit : String) (resolution : ℤ) (point : Point) (start : Time)
    → IsCanonical (reading_of meter business_type unit resolution point start)
unfolding quality direction
reading_of-IsCanonical meter business_type unit resolution point start = record {
  known_quality = ground arith;
  known_direction = ground arith;
  gross = refl;
}
