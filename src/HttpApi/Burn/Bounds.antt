-- ===== src/HttpApi/Burn/Bounds.antt =====
-- How long a request to burn may take.
use experiment_go.Prelude.{
  ℕ, zero, suc, ◌+◌, ◌*◌, ◌≤◌, ◌<◌, ◌≡◌, ◌⊎◌, inl, inr, refl, some, true, false, Bool-cases, arith,
}
use experiment_go.Prelude.Int.{ℤ, pos, ltb_ℤ, ◌≤ℤ◌, ◌<ℤ◌}
use experiment_go.HttpApi.Burn.{burn_duration, spin_rounds}

-- A number of milliseconds is kept up to 2000 and capped at 2 seconds above, up to the largest one
-- whose nanoseconds are an int64. Whatever the number, the duration is at most 2 seconds.
pub burn_duration_bounds :
    (ms : ℕ)
    → (burn_duration (pos ms) ≤ℤ pos 2_000_000_000)
      × (((ms ≤ 2000) × (burn_duration (pos ms) ≡ pos (ms * 1_000_000)))
          ⊎ ((2000 < ms) × (ms ≤ 9_223_372_036_854) × (burn_duration (pos ms) ≡ pos 2_000_000_000))
          ⊎ (9_223_372_036_854 < ms))
unfolding burn_duration
burn_duration_bounds ms = (ground arith, ground arith)

-- The loop ends in the round `k`: the first that reads a time after the deadline.
pub record EndsAt (clock : ℕ → ℤ) (deadline : ℤ) (from k : ℕ) : Type 0 where
  pub reached : from ≤ k
  pub after : deadline <ℤ clock k
  pub first : (j : ℕ) → from ≤ j → j < k → clock j ≤ℤ deadline

module _ (clock : ℕ → ℤ) (deadline : ℤ) where
  abbrev Ends : ℕ → ℕ → ℕ → Type 0
  Ends n from m =
      (k : ℕ) × (spin_rounds (suc n) clock deadline from ≡ some (suc k))
      × (k ≤ m)
      × EndsAt clock deadline from k

  spin_rounds_now : (n from m : ℕ) → from ≤ m → ltb_ℤ deadline (clock from) ≡ true → Ends n from m
  unfolding spin_rounds
  spin_rounds_now n from m le e = (
    from,
    rw e refl,
    le,
    record { reached = omega arith; after = ground arith; first = λ j a b. absurd (omega arith) },
  )

  earlier : (from j : ℕ) → from ≤ j → (j ≡ from) ⊎ (suc from ≤ j)
  earlier from j a = omega arith

  spin_rounds_later :
      (n from m : ℕ)
      → ltb_ℤ deadline (clock from) ≡ false
      → Ends n (suc from) m
      → Ends (suc n) from m
  unfolding spin_rounds
  spin_rounds_later n from m e (k, q, le, ends) = (
    k,
    rw e q,
    le,
    record {
      reached = omega (arith, ends.reached);
      after = ends.after;
      first = λ j a b. elim (earlier from j a) [
        | inl same ↦ rw same (ground arith)
        | inr next ↦ ends.first j next b
      ];
    },
  )

  spin_rounds_from : (n from m : ℕ) → from + n ≡ m → deadline <ℤ clock m → Ends n from m
  spin_rounds_from zero from m q late =
      let here : m ≡ from = omega arith in
      spin_rounds_now 0 from m (omega arith) (let at_once = rw here at late in ground arith)
  spin_rounds_from (suc n) from m q late = elim (Bool-cases (ltb_ℤ deadline (clock from))) [
    | inl e ↦ spin_rounds_now (suc n) from m (omega arith) e
    | inr e ↦ spin_rounds_later n from m e (spin_rounds_from n (suc from) m (omega arith) late)
  ]

-- If the clock ever reads a time after the deadline, in the round `n` or before, then with fuel for
-- one round more the loop ends, in the first round that reads such a time.
pub spin_rounds-EndsAt :
    (clock : ℕ → ℤ) (deadline : ℤ) (n : ℕ)
    → deadline <ℤ clock n
    → (k : ℕ) × (spin_rounds (suc n) clock deadline 0 ≡ some (suc k))
      × (k ≤ n)
      × EndsAt clock deadline 0 k
spin_rounds-EndsAt clock deadline n late = spin_rounds_from clock deadline n 0 n (omega arith) late
