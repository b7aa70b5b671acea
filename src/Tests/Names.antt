-- ===== src/Tests/Names.antt =====
-- Names of quarantined objects, metadata, titles and Locations.
use text.Mathlib.TextLemmas.{cons-ne-nil}
use experiment_go.Prelude.{suc, zero, ℕ, ◌≡◌, ◌↔◌, ◌⊎◌, refl, List, [], ◌∷◌, arith, take}
use experiment_go.Prelude.Int.{pos, ◌≤ℤ◌, ◌<ℤ◌}
use experiment_go.Prelude.Text.{trim_space}
use experiment_go.Prelude.Text.Trim.{IsBlank}
use experiment_go.Prelude.Errors.{ok, err, sentinel, invalid_title}
use experiment_go.Quarantine.{
  is_printable, text_length, Library, sanitize_id, sanitize_metadata, object_name,
}
use experiment_go.Quarantine.Names.{
  IsSafeName, sanitize_id-IsSafeName, AllChars, sanitize_metadata_lem,
}
use experiment_go.Quarantine.Collisions.{IsDigest, object_name-eq_iff}
use experiment_go.Task.{normalise_title}
use experiment_go.Task.Titles.{IsTidy, normalise_title_lem}
use experiment_go.Task.Postgres.{page_limit, page_offset}
use experiment_go.Task.Postgres.Pages.{page_bounds}
use experiment_go.Tests.Ingestion.{noon}

sanitize_id-IsSafeName_example : IsSafeName (sanitize_id "../etc/passwd")
sanitize_id-IsSafeName_example = sanitize_id-IsSafeName "../etc/passwd"

msg_7-IsSafeName : IsSafeName "msg-7"
unfolding text_length
msg_7-IsSafeName = record {
  allowed = (refl, (refl, (refl, (refl, (refl, tt)))));
  short = omega arith;
  present = cons-ne-nil _ _;
  visible = refl;
}

sanitize_metadata_lem_example :
    AllChars is_printable (sanitize_metadata "naïve\n")
    × (text_length (sanitize_metadata "naïve\n") ≡ text_length "naïve\n")
    × ((sanitize_metadata "naïve\n" ≡ "naïve\n") ↔ AllChars is_printable "naïve\n")
sanitize_metadata_lem_example = sanitize_metadata_lem "naïve\n"

abbrev zeros : ℕ → List ℕ
zeros zero = []
zeros (suc n) = 0 ∷ zeros n

abbrev library : Library
library = record {
  sha256 = λ text. zeros 32;
  format_date = λ t. "2026/01/02";
  format_clock = λ t. "150405.000000500";
}

zeros-IsDigest : IsDigest (zeros 32)
zeros-IsDigest = ground arith

object_name-eq_iff_example :
    (object_name library noon "a/1" ≡ object_name library noon "a_1")
    ↔ ((take 4 (zeros 32) ≡ take 4 (zeros 32)) × (sanitize_id "a/1" ≡ sanitize_id "a_1"))
object_name-eq_iff_example =
    object_name-eq_iff library noon "a/1" "a_1" zeros-IsDigest zeros-IsDigest

normalise_title_lem_example :
    (IsBlank " buy " × (normalise_title " buy " ≡ err (sentinel invalid_title)))
    ⊎ ((¬ IsBlank " buy ")
        × (normalise_title " buy " ≡ ok (trim_space " buy "))
        × IsTidy (trim_space " buy ")
        × (normalise_title (trim_space " buy ") ≡ ok (trim_space " buy ")))
normalise_title_lem_example = normalise_title_lem " buy "

page_bounds_example :
    (pos 1 ≤ℤ page_limit (pos 500))
    × (page_limit (pos 500) ≤ℤ pos 100)
    × (pos 0 ≤ℤ page_offset (pos 3))
    × (((pos 1 ≤ℤ pos 500) × (pos 500 ≤ℤ pos 100) × (page_limit (pos 500) ≡ pos 500))
        ⊎ (((pos 500 <ℤ pos 1) ⊎ (pos 100 <ℤ pos 500)) × (page_limit (pos 500) ≡ pos 20)))
    × (((pos 0 ≤ℤ pos 3) × (page_offset (pos 3) ≡ pos 3))
        ⊎ ((pos 3 <ℤ pos 0) × (page_offset (pos 3) ≡ pos 0)))
page_bounds_example = page_bounds (pos 500) (pos 3)
