-- ===== src/Prelude/Text/Trim.antt =====
-- Trimming: what is left begins and ends with characters that stay, and trimming again changes
-- nothing.
use Prim.Native.Nat.{ℕ}
use Prim.Native.Char.{Char, code}
use Prim.Native.String.{String, [], ◌∷◌}
use mathlib.Core.Path.{◌≡◌, refl, ap}
use mathlib.Core.Logic.{◌≢◌, ◌↔◌, inl, inr}
use mathlib.Core.Bool.{Bool, true, false}
use text.Mathlib.Text.{◌==◌}
use text.Mathlib.TextEquality.{eq_iff}
use text.Mathlib.TextLemmas.{cons-ne-nil}
use experiment_go.Prelude.Tests.{Bool-cases}
use experiment_go.Prelude.Text.{join_right, trim_left, trim_right, trim, trim_space, is_space}

module _ (cut : ℕ → Bool) where
  -- The first character, if there is one, is not cut.
  abbrev pub HeadKept : String → Type 0
  HeadKept [] = Unit
  HeadKept (c ∷ s) = cut (code c) ≡ false

  -- The last character, if there is one, is not cut.
  abbrev pub LastKept : String → Type 0
  LastKept [] = Unit
  LastKept (c ∷ []) = cut (code c) ≡ false
  LastKept (c ∷ d ∷ s) = LastKept (d ∷ s)

  -- Every character is cut.
  abbrev pub AllCut : String → Type 0
  AllCut [] = Unit
  AllCut (c ∷ s) = (cut (code c) ≡ true) × AllCut s

  trim_left-HeadKept : (s : String) → HeadKept (trim_left cut s)
  unfolding trim_left
  trim_left-HeadKept [] = tt
  trim_left-HeadKept (c ∷ s) = elim (Bool-cases (cut (code c))) [
    | inl e ↦ rw e (trim_left-HeadKept s)
    | inr e ↦ rw e e
  ]

  trim_left_of_HeadKept : (s : String) → HeadKept s → trim_left cut s ≡ s
  unfolding trim_left
  trim_left_of_HeadKept [] h = refl
  trim_left_of_HeadKept (c ∷ s) h = rw h

  join_right-HeadKept :
      (c : Char) (r : String) → cut (code c) ≡ false → HeadKept (join_right cut c r)
  join_right-HeadKept c [] h = rw h h
  join_right-HeadKept c (d ∷ r) h = h

  trim_right-HeadKept : (s : String) → HeadKept s → HeadKept (trim_right cut s)
  unfolding trim_right
  trim_right-HeadKept [] h = tt
  trim_right-HeadKept (c ∷ s) h = join_right-HeadKept c (trim_right cut s) h

  join_right-LastKept : (c : Char) (r : String) → LastKept r → LastKept (join_right cut c r)
  join_right-LastKept c [] h = elim (Bool-cases (cut (code c))) [ inl e ↦ rw e tt | inr e ↦ rw e e ]
  join_right-LastKept c (d ∷ r) h = h

  trim_right-LastKept : (s : String) → LastKept (trim_right cut s)
  unfolding trim_right
  trim_right-LastKept [] = tt
  trim_right-LastKept (c ∷ s) = join_right-LastKept c (trim_right cut s) (trim_right-LastKept s)

  trim_right_of_LastKept : (s : String) → LastKept s → trim_right cut s ≡ s
  unfolding trim_right
  trim_right_of_LastKept [] h = refl
  trim_right_of_LastKept (c ∷ []) h = rw h
  trim_right_of_LastKept (c ∷ d ∷ s) h = ap (join_right cut c) (trim_right_of_LastKept (d ∷ s) h)

  -- What is left begins and ends with characters that stay.
  pub trim-HeadKept : (s : String) → HeadKept (trim cut s)
  unfolding trim
  trim-HeadKept s = trim_right-HeadKept (trim_left cut s) (trim_left-HeadKept s)

  pub trim-LastKept : (s : String) → LastKept (trim cut s)
  unfolding trim
  trim-LastKept s = trim_right-LastKept (trim_left cut s)

  -- A text that begins and ends with characters that stay is not changed.
  pub trim_of_kept : (s : String) → HeadKept s → LastKept s → trim cut s ≡ s
  unfolding trim
  trim_of_kept s h l = rw (trim_left_of_HeadKept s h) (trim_right_of_LastKept s l)

  pub trim_idem : (s : String) → trim cut (trim cut s) ≡ trim cut s
  trim_idem s = trim_of_kept (trim cut s) (trim-HeadKept s) (trim-LastKept s)

  trim_left_of_AllCut : (s : String) → AllCut s → trim_left cut s ≡ []
  unfolding trim_left
  trim_left_of_AllCut [] h = refl
  trim_left_of_AllCut (c ∷ s) h = rw h.0 (trim_left_of_AllCut s h.1)

  join_right-ne-nil : (c : Char) (r : String) → cut (code c) ≡ false → join_right cut c r ≢ []
  join_right-ne-nil c [] h = rw h (cons-ne-nil c [])
  join_right-ne-nil c (d ∷ r) h = cons-ne-nil c (d ∷ r)

  AllCut-trim : (s : String) → trim cut s ≡ [] → AllCut s
  unfolding trim trim_left trim_right
  AllCut-trim [] h = tt
  AllCut-trim (c ∷ s) h = elim (Bool-cases (cut (code c))) [
    | inl e ↦ (e, AllCut-trim s (rw e at h))
    | inr e ↦ absurd (join_right-ne-nil c (trim_right cut s) e (rw e at h))
  ]

  -- Trimming leaves nothing exactly if every character is cut.
  pub trim-eq-nil_iff : (s : String) → (trim cut s ≡ []) ↔ AllCut s
  unfolding trim trim_right
  trim-eq-nil_iff s = (AllCut-trim s, λ h. rw (trim_left_of_AllCut s h))

-- The text holds nothing but white space.
abbrev pub IsBlank : String → Type 0
IsBlank = AllCut is_space

pub trim_space_iff : (s : String) → ((trim_space s == "") ≡ true) ↔ IsBlank s
unfolding trim_space
trim_space_iff s = (
  λ e. (trim-eq-nil_iff is_space s).0 ((eq_iff _ _).0 e),
  λ b. (eq_iff _ _).1 ((trim-eq-nil_iff is_space s).1 b),
)

pub trim_space_idem : (s : String) → trim_space (trim_space s) ≡ trim_space s
unfolding trim_space
trim_space_idem s = trim_idem is_space s
