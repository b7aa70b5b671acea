-- ===== src/Quarantine/Names.antt =====
-- What the sanitizers guarantee of a name and of metadata.
use Prim.Native.String.{[], ◌∷◌}
use experiment_go.Prelude.{
  ℕ, zero, suc, ◌≤◌, ◌≡◌, ◌≢◌, ◌↔◌, refl, ap, sym, subst, String, Char, code, Bool, true, arith,
  ◌==◌, eq_iff, ltb, Bool-cases, inl, inr, if_both,
}
use text.Mathlib.TextLemmas.{cons-ne-nil}
use experiment_go.Prelude.Text.{trim, trim_left, trim_right, join_right}
use experiment_go.Prelude.Text.Trim.{HeadKept, LastKept, trim-HeadKept, trim_of_kept}
use experiment_go.Quarantine.{
  is_allowed, is_printable, replace_others, is_cut, text_length, take_text, capped, or_unknown,
  sanitize_id, sanitize_metadata,
}

-- Every character of the text passes the test.
abbrev pub AllChars : (ℕ → Bool) → String → Type 0
AllChars keep [] = Unit
AllChars keep (c ∷ s) = (keep (code c) ≡ true) × AllChars keep s

module _ (keep : ℕ → Bool) where
  replace_others-AllChars : keep b'_' ≡ true → (s : String) → AllChars keep (replace_others keep s)
  unfolding replace_others
  replace_others-AllChars u [] = tt
  replace_others-AllChars u (c ∷ s) = elim (Bool-cases (keep (code c))) [
    | inl e ↦ (rw e e, replace_others-AllChars u s)
    | inr e ↦ (rw e u, replace_others-AllChars u s)
  ]

  replace_others_of_AllChars : (s : String) → AllChars keep s → replace_others keep s ≡ s
  unfolding replace_others
  replace_others_of_AllChars [] h = refl
  replace_others_of_AllChars (c ∷ s) h = rw (h.0, replace_others_of_AllChars s h.1)

  text_length-replace_others : (s : String) → text_length (replace_others keep s) ≡ text_length s
  unfolding replace_others text_length
  text_length-replace_others [] = refl
  text_length-replace_others (c ∷ s) = ap suc (text_length-replace_others s)

  AllChars-take_text : (n : ℕ) (s : String) → AllChars keep s → AllChars keep (take_text n s)
  unfolding take_text
  AllChars-take_text zero s h = tt
  AllChars-take_text (suc n) [] h = tt
  AllChars-take_text (suc n) (c ∷ s) h = (h.0, AllChars-take_text n s h.1)

  module _ (cut : ℕ → Bool) where
    AllChars-trim_left : (s : String) → AllChars keep s → AllChars keep (trim_left cut s)
    unfolding trim_left
    AllChars-trim_left [] h = tt
    AllChars-trim_left (c ∷ s) h =
        if_both (AllChars keep) (cut (code c)) (AllChars-trim_left s h.1) h

    AllChars-join_right :
        (c : Char) (s : String)
        → keep (code c) ≡ true
        → AllChars keep s
        → AllChars keep (join_right cut c s)
    AllChars-join_right c [] k h = if_both (AllChars keep) (cut (code c)) tt (k, tt)
    AllChars-join_right c (d ∷ s) k h = (k, h)

    AllChars-trim_right : (s : String) → AllChars keep s → AllChars keep (trim_right cut s)
    unfolding trim_right
    AllChars-trim_right [] h = tt
    AllChars-trim_right (c ∷ s) h =
        AllChars-join_right c (trim_right cut s) h.0 (AllChars-trim_right s h.1)

    AllChars-trim : (s : String) → AllChars keep s → AllChars keep (trim cut s)
    unfolding trim
    AllChars-trim s h = AllChars-trim_right (trim_left cut s) (AllChars-trim_left s h)

text_length-take_text : (n : ℕ) (s : String) → text_length (take_text n s) ≤ n
unfolding text_length take_text
text_length-take_text zero s = omega arith
text_length-take_text (suc n) [] = omega arith
text_length-take_text (suc n) (c ∷ s) = omega (arith, text_length-take_text n s)

HeadKept-take_text :
    (cut : ℕ → Bool) (n : ℕ) (s : String) → HeadKept cut s → HeadKept cut (take_text n s)
unfolding take_text
HeadKept-take_text cut zero s h = tt
HeadKept-take_text cut (suc n) [] h = tt
HeadKept-take_text cut (suc n) (c ∷ s) h = h

-- A name that cannot leave the directory it is put in.
pub record IsSafeName (s : String) : Type 0 where
  pub allowed : AllChars is_allowed s
  pub short : text_length s ≤ 128
  pub present : ◌≢◌ {A = String} s ""
  pub visible : HeadKept is_cut s

or_unknown-cons : (c : Char) (s : String) → or_unknown (c ∷ s) ≡ c ∷ s
or_unknown-cons c s = elim (Bool-cases ((c ∷ s) == "")) [
  | inl e ↦ absurd (cons-ne-nil c s ((eq_iff (c ∷ s) "").0 e))
  | inr e ↦ rw e
]

unknown-IsSafeName :
    (s : String)
    → AllChars is_allowed s
    → text_length s ≤ 128
    → HeadKept is_cut s
    → IsSafeName (or_unknown s)
unfolding text_length
unknown-IsSafeName [] a l v = record {
  allowed = (refl, (refl, (refl, (refl, (refl, (refl, (refl, tt)))))));
  short = omega arith;
  present = cons-ne-nil _ _;
  visible = refl;
}
unknown-IsSafeName (c ∷ s) a l v =
    subst IsSafeName (sym (or_unknown-cons c s))
      (record { allowed = a; short = l; present = cons-ne-nil c s; visible = v })

capped-IsSafeName :
    (s : String) → AllChars is_allowed s → HeadKept is_cut s → IsSafeName (or_unknown (capped s))
capped-IsSafeName s a v =
    unknown-IsSafeName (capped s)
      (if_both (AllChars is_allowed) long (AllChars-take_text is_allowed 128 s a) a) short
      (if_both (HeadKept is_cut) long (HeadKept-take_text is_cut 128 s v) v)
  where
    long : Bool
    long = ltb 128 (text_length s)

    short : text_length (capped s) ≤ 128
    short = elim (Bool-cases (ltb 128 (text_length s))) [
      | inl e ↦ rw e (text_length-take_text 128 s)
      | inr e ↦ rw e (ground arith)
    ]

-- Whatever the message id, its sanitised form holds only letters, digits, dots, underscores and
-- dashes, is neither empty nor longer than 128 characters, and does not begin with a dot or an
-- underscore.
pub sanitize_id-IsSafeName : (id : String) → IsSafeName (sanitize_id id)
unfolding sanitize_id
sanitize_id-IsSafeName id =
    capped-IsSafeName (trim is_cut (replace_others is_allowed id))
      (AllChars-trim is_allowed is_cut (replace_others is_allowed id)
        (replace_others-AllChars is_allowed refl id))
      (trim-HeadKept is_cut (replace_others is_allowed id))

-- An id that is safe already, and does not end in a dot or an underscore, is kept as it is.
pub sanitize_id_of_IsSafeName :
    (id : String) → IsSafeName id → LastKept is_cut id → sanitize_id id ≡ id
unfolding sanitize_id
sanitize_id_of_IsSafeName id h last =
    rw (replace_others_of_AllChars is_allowed id h.allowed, trim_of_kept is_cut id h.visible last)
      (ground (arith, h.short, eq_iff id "", h.present))

-- Metadata holds only printable ASCII and tabs, as many characters as the value has, and a value is
-- kept as it is exactly if it is of such characters.
pub sanitize_metadata_lem :
    (s : String)
    → AllChars is_printable (sanitize_metadata s)
      × (text_length (sanitize_metadata s) ≡ text_length s)
      × ((sanitize_metadata s ≡ s) ↔ AllChars is_printable s)
unfolding sanitize_metadata
sanitize_metadata_lem s = (
  replace_others-AllChars is_printable refl s,
  text_length-replace_others is_printable s,
  (
    λ e. subst (AllChars is_printable) e (replace_others-AllChars is_printable refl s),
    replace_others_of_AllChars is_printable s,
  ),
)
