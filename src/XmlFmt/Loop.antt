-- ===== src/XmlFmt/Loop.antt =====
-- The loops `for { tok, err := d.Token(); … }` of the parsers: a step reads at least one token, and
-- goes on with new local variables or ends. Fuel bounds the rounds.
use experiment_go.Prelude.{ℕ, zero, suc, ◌<◌, Option, none, some, List, arith, length}
use experiment_go.Prelude.Errors.{GoError}
use experiment_go.Consumption.{Reading}
use experiment_go.Consumption.Xml.{Token}

-- The state that the parser's methods share by pointers: the decoder's tokens, the batch, the number
-- of readings, and the world behind `flush`.
pub record Cursor (W : Type 0) : Type 0 where
  pub tokens : List Token
  pub batch : List Reading
  pub total : ℕ
  pub world : W

-- One round of a loop: it returns, or goes on; `starved` if an inner loop had too little fuel.
pub data Step (W L : Type 0) : Type 0 where
  stop : Option GoError → Cursor W → Step W L
  again : L → Cursor W → Step W L
  starved : Step W L

module _ {W L : Type 0} where
  unfoldable pub loop :
      ℕ → (L → Cursor W → Step W L) → L → Cursor W → Option (Option GoError × Cursor W)
  loop zero step l c = none
  loop (suc fuel) step l c = elim (step l c) [
    | stop e c' ↦ some (e, c')
    | again l' c' ↦ loop fuel step l' c'
    | starved ↦ none
  ]

-- The loop returned, and `Q` holds of what it returned.
abbrev pub Ensures :
    {W : Type 0}
    → (Option GoError → Cursor W → Type 0)
    → Option (Option GoError × Cursor W)
    → Type 0
Ensures Q none = ⊥
Ensures Q (some (e, c)) = Q e c

module _ {W L : Type 0} (P : L → Cursor W → Type 0) (Q : Option GoError → Cursor W → Type 0) where
  -- A round from `c` keeps `P` and takes a token, or ends with `Q`.
  abbrev pub Progress : Cursor W → Step W L → Type 0
  Progress c (stop e c') = Q e c'
  Progress c (again l c') = P l c' × (length c'.tokens < length c.tokens)
  Progress c starved = ⊥

  after_step :
      (fuel : ℕ) (step : L → Cursor W → Step W L) (c : Cursor W) (s : Step W L)
      → Progress c s
      → length c.tokens < suc fuel
      → ((l' : L) (c' : Cursor W)
          → P l' c'
          → length c'.tokens < fuel
          → Ensures Q (loop fuel step l' c'))
      → Ensures Q (elim s [
        | stop e c' ↦ some (e, c')
        | again l' c' ↦ loop fuel step l' c'
        | starved ↦ none
      ])
  after_step fuel step c (stop e c') h short k = h
  after_step fuel step c (again l' c') h short k = k l' c' h.0 (omega arith)
  after_step fuel step c starved h short k = absurd h

  -- With more fuel than tokens the loop returns, and what its rounds keep holds at the end.
  pub loop-Ensures :
      (step : L → Cursor W → Step W L)
      → ((l : L) (c : Cursor W) → P l c → Progress c (step l c))
      → (fuel : ℕ) (l : L) (c : Cursor W) → P l c
      → length c.tokens < fuel
      → Ensures Q (loop fuel step l c)
  unfolding loop
  loop-Ensures step keep zero l c h short = absurd (omega arith)
  loop-Ensures step keep (suc fuel) l c h short =
      after_step fuel step c (step l c) (keep l c h) short (loop-Ensures step keep fuel)
