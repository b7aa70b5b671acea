-- ===== src/Task/Titles.antt =====
-- What the service stores as a title.
use experiment_go.Prelude.{◌≡◌, ◌≢◌, ◌⊎◌, String, ◌==◌, eq_iff, Bool-cases, inl, inr}
use experiment_go.Prelude.Errors.{ok, err, sentinel, invalid_title}
use experiment_go.Prelude.Text.{trim_space}
use experiment_go.Prelude.Text.Trim.{IsBlank, trim_space_iff, trim_space_idem}
use experiment_go.Task.{normalise_title}

-- A title that is neither blank nor surrounded by white space.
pub record IsTidy (title : String) : Type 0 where
  pub present : ◌≢◌ {A = String} title ""
  pub trimmed : trim_space title ≡ title

pub trim_space-IsTidy : (title : String) → ¬ IsBlank title → IsTidy (trim_space title)
trim_space-IsTidy title b = record {
  present = λ e. b ((trim_space_iff title).0 ((eq_iff (trim_space title) "").1 e));
  trimmed = trim_space_idem title;
}

normalise_title-blank :
    (title : String) → IsBlank title → normalise_title title ≡ err (sentinel invalid_title)
unfolding normalise_title
normalise_title-blank title b = rw ((trim_space_iff title).1 b)

normalise_title_of_not_blank :
    (title : String) → ¬ IsBlank title → normalise_title title ≡ ok (trim_space title)
unfolding normalise_title
normalise_title_of_not_blank title b = elim (Bool-cases (trim_space title == "")) [
  | inl e ↦ absurd (b ((trim_space_iff title).0 e))
  | inr e ↦ rw e
]

normalise_title_of_IsTidy : (title : String) → IsTidy title → normalise_title title ≡ ok title
unfolding normalise_title
normalise_title_of_IsTidy title h = elim (Bool-cases (title == "")) [
  | inl e ↦ absurd (h.present ((eq_iff title "").0 e))
  | inr e ↦ rw h.trimmed (rw e)
]

-- A title is refused, with the error for an invalid title, if it holds nothing but white space. Any
-- other is trimmed; what is accepted is tidy, and is accepted again unchanged.
pub normalise_title_lem :
    (title : String)
    → (IsBlank title × (normalise_title title ≡ err (sentinel invalid_title)))
      ⊎ ((¬ IsBlank title)
          × (normalise_title title ≡ ok (trim_space title))
          × IsTidy (trim_space title)
          × (normalise_title (trim_space title) ≡ ok (trim_space title)))
normalise_title_lem title = elim (Bool-cases (trim_space title == "")) [
  | inl e ↦ let blank = (trim_space_iff title).0 e in inl (blank, normalise_title-blank title blank)
  | inr e ↦
      let present : ¬ IsBlank title = λ b. cc (e, (trim_space_iff title).1 b) in
      let tidy = trim_space-IsTidy title present in
      inr (
        present,
        normalise_title_of_not_blank title present,
        tidy,
        normalise_title_of_IsTidy (trim_space title) tidy,
      )
]
