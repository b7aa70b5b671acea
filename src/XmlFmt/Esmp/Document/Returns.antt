-- ===== src/XmlFmt/Esmp/Document/Returns.antt =====
-- Runs of a loop round by round, whatever the fuel, and that the loops of the parser do return.
use experiment_go.Prelude.{ℕ, zero, suc, ◌≡◌, refl, sym, ap, ◌∙◌, Option, none, some}
use experiment_go.Prelude.Errors.{GoError}
use experiment_go.XmlFmt.Loop.{Cursor, Step, stop, again, starved, loop, Ensures}

module _ {W L : Type 0} (step : L → Cursor W → Step W L) where
  -- With some fuel the loop returns `r`.
  abbrev pub Returns : L → Cursor W → Option GoError × Cursor W → Type 0
  Returns l c r = (n : ℕ) × (loop n step l c ≡ some r)

  pub Returns-stop :
      (l : L) (c : Cursor W) (e : Option GoError) (c' : Cursor W)
      → step l c ≡ stop e c'
      → Returns l c (e, c')
  unfolding loop
  Returns-stop l c e c' h = (1, rw (h, loop) refl)

  pub Returns-again :
      (l : L) (c : Cursor W) (l' : L) (c' : Cursor W) (r : Option GoError × Cursor W)
      → step l c ≡ again l' c'
      → Returns l' c' r
      → Returns l c r
  unfolding loop
  Returns-again l c l' c' r h (n, k) = (suc n, rw (h, loop) k)

  -- What a loop returns does not depend on the fuel.
  agree_step :
      (n m : ℕ) (s : Step W L) (r r' : Option GoError × Cursor W)
      → ((l : L) (c : Cursor W) → loop n step l c ≡ some r → loop m step l c ≡ some r' → r ≡ r')
      → elim s [ stop e c ↦ some (e, c) | again l c ↦ loop n step l c | starved ↦ none ] ≡ some r
      → elim s [ stop e c ↦ some (e, c) | again l c ↦ loop m step l c | starved ↦ none ] ≡ some r'
      → r ≡ r'
  agree_step n m (stop e c) r r' ih h k = cc
  agree_step n m (again l c) r r' ih h k = ih l c h k
  agree_step n m starved r r' ih h k = cc

  loop-agree :
      (n m : ℕ) (l : L) (c : Cursor W) (r r' : Option GoError × Cursor W)
      → loop n step l c ≡ some r
      → loop m step l c ≡ some r'
      → r ≡ r'
  unfolding loop
  loop-agree zero m l c r r' h k = cc
  loop-agree (suc n) zero l c r r' h k = cc
  loop-agree (suc n) (suc m) l c r r' h k =
      agree_step n m (step l c) r r' (λ l' c'. loop-agree n m l' c' r r') h k

  pub Returns-loop :
      (m : ℕ) (l : L) (c : Cursor W) (r : Option GoError × Cursor W)
      → Returns l c r
      → (r' : Option GoError × Cursor W) × (loop m step l c ≡ some r')
      → loop m step l c ≡ some r
  Returns-loop m l c r (n, h) (r', k) = k ∙ ap some (sym (loop-agree n m l c r r' h k))

module _ {W : Type 0} (Q : Option GoError → Cursor W → Type 0) where
  pub Ensures-returned :
      (o : Option (Option GoError × Cursor W))
      → Ensures Q o
      → (r : Option GoError × Cursor W) × (o ≡ some r)
  Ensures-returned none h = absurd h
  Ensures-returned (some r) h = (r, refl)
