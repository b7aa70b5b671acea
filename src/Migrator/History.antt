-- ===== src/Migrator/History.antt =====
-- The migrator over a schema history: how many of the embedded migrations are applied.
use experiment_go.Prelude.{
  ℕ, zero, suc, [], ◌∷◌, ◌+◌, ◌≤◌, ◌≡◌, ◌⊎◌, inl, inr, Bool, true, false, Option, none, some, arith,
}
use experiment_go.Prelude.Int.{ℤ, pos, negsuc, leb_ℤ, ◌-ℤ◌}
use experiment_go.Prelude.Errors.{GoError, Message, Result, ok, err, lit, num, is_error, no_change}
use experiment_go.Migrator.{Engine, up, down, after_up, read_after, unless_no_change}

module _ (total : ℕ) where
  -- Up applies all that is left. ErrNoChange says that there is nothing left, and another error may
  -- come after some migrations.
  abbrev pub OnUp : Option GoError → ℕ → ℕ → Type 0
  OnUp none before after = after ≡ total
  OnUp (some e) before after =
      ((is_error e no_change ≡ true) × (before ≡ total) × (after ≡ total))
      ⊎ ((is_error e no_change ≡ false) × (before ≤ after) × (after ≤ total))

-- Down takes back all, ErrNoChange says that nothing was applied.
abbrev pub OnDown : Option GoError → ℕ → ℕ → Type 0
OnDown none before after = after ≡ 0
OnDown (some e) before after =
    ((is_error e no_change ≡ true) × (before ≡ 0) × (after ≡ 0))
    ⊎ ((is_error e no_change ≡ false) × (after ≤ before))

-- Steps(-n) takes back n, or fewer with an error.
abbrev pub OnStepsBack : ℕ → Option GoError → ℕ → ℕ → Type 0
OnStepsBack n none before after = after + n ≡ before
OnStepsBack n (some e) before after =
    ((is_error e no_change ≡ true) × (after ≡ before))
    ⊎ ((is_error e no_change ≡ false) × (after ≤ before) × (before ≤ after + n))

-- The documented behaviour of golang-migrate on a database: `applied` counts the migrations in force.
pub record History {D : Type 0} (applied : D → ℕ) (total : ℕ) (m : Engine D) : Type 0 where
  pub on_up : (d : D) → OnUp total (m.up d).0 (applied d) (applied (m.up d).1)
  pub on_down : (d : D) → OnDown (m.down d).0 (applied d) (applied (m.down d).1)
  pub on_steps :
      (n : ℕ) (d : D)
      → OnStepsBack (suc n) (m.steps (negsuc n) d).0 (applied d) (applied (m.steps (negsuc n) d).1)
  pub on_force : (v : ℤ) (d : D) → applied (m.force v d).1 ≤ total
  pub on_close : (d : D) → applied (m.close d).1 ≡ applied d

-- What Up promises: nil means that every migration is applied, and no error loses one.
abbrev pub UpPromise : ℕ → Option GoError → ℕ → ℕ → Type 0
UpPromise total none before after = after ≡ total
UpPromise total (some e) before after = (before ≤ after) × (after ≤ total)

-- What Down promises of a number: all are taken back if it is not positive, else at most as many.
abbrev pub DownPromise : ℤ → Option GoError → ℕ → ℕ → Type 0
DownPromise (pos (suc n)) none before after = (after + suc n ≡ before) ⊎ (after ≡ before)
DownPromise (pos (suc n)) (some e) before after = (after ≤ before) × (before ≤ after + suc n)
DownPromise _ none before after = after ≡ 0
DownPromise _ (some e) before after = after ≤ before

positive : (n : ℕ) → leb_ℤ (pos (suc n)) (pos 0) ≡ false
positive n = ground arith

nonpositive : (n : ℕ) → leb_ℤ (negsuc n) (pos 0) ≡ true
nonpositive n = ground arith

negated : (n : ℕ) → pos 0 -ℤ pos (suc n) ≡ negsuc n
negated n = ground arith

module _ {D : Type 0} (applied : D → ℕ) (total : ℕ) (m : Engine D)
    (history : History applied total m) where
  read-UpPromise :
      (before after : ℕ) (r : Result (ℕ × Bool))
      → before ≤ total
      → after ≡ total
      → UpPromise total (read_after m r) before after
  read-UpPromise before after (ok v) le e = e
  read-UpPromise before after (err x) le e = (omega arith, omega arith)

  after_up-UpPromise :
      (before : ℕ) (r : Option GoError × D)
      → before ≤ total
      → OnUp total r.0 before (applied r.1)
      → UpPromise total (after_up m r).0 before (applied (after_up m r).1)
  after_up-UpPromise before (none, d) le h = read-UpPromise before (applied d) (m.version d) le h
  after_up-UpPromise before (some e, d) le (inl h) = rw h.0 (h.2)
  after_up-UpPromise before (some e, d) le (inr h) = rw h.0 (h.1, h.2)

  -- If Up returns nil, every migration is applied; if it returns an error, no migration is lost.
  pub up-UpPromise :
      (d : D) → applied d ≤ total → UpPromise total (up m d).0 (applied d) (applied (up m d).1)
  unfolding up
  up-UpPromise d le = after_up-UpPromise (applied d) (m.up d) le (history.on_up d)

  back-DownPromise :
      (n before : ℕ) (doing : Message) (r : Option GoError × D)
      → OnStepsBack (suc n) r.0 before (applied r.1)
      → DownPromise
          (pos (suc n))
          (unless_no_change m doing r).0
          before
          (applied (unless_no_change m doing r).1)
  back-DownPromise n before doing (none, d) h = inl h
  back-DownPromise n before doing (some e, d) (inl h) = rw h.0 (inr h.1)
  back-DownPromise n before doing (some e, d) (inr h) = rw h.0 (h.1, h.2)

  all-DownPromise :
      (before : ℕ) (doing : Message) (r : Option GoError × D)
      → OnDown r.0 before (applied r.1)
      → DownPromise
          (pos 0)
          (unless_no_change m doing r).0
          before
          (applied (unless_no_change m doing r).1)
  all-DownPromise before doing (none, d) h = h
  all-DownPromise before doing (some e, d) (inl h) = rw h.0 (h.2)
  all-DownPromise before doing (some e, d) (inr h) = rw h.0 (h.1)

  -- Down n with a positive n that returns nil has taken back n migrations or, if there was no change,
  -- none; with an error, at most n. With any other n it takes back all of them, and with an error it
  -- has added none.
  pub down-DownPromise :
      (n : ℤ) (d : D) → DownPromise n (down m n d).0 (applied d) (applied (down m n d).1)
  unfolding down
  down-DownPromise (pos zero) d =
      all-DownPromise (applied d) (lit "roll back all migrations" ∷ []) (m.down d)
        (history.on_down d)
  down-DownPromise (negsuc n) d = rw (nonpositive n) (
      all-DownPromise (applied d) (lit "roll back all migrations" ∷ []) (m.down d)
        (history.on_down d))
  down-DownPromise (pos (suc n)) d =
      rw (positive n, negated n)
        (back-DownPromise n (applied d)
          (lit "roll back " ∷ num (pos (suc n)) ∷ lit " migration(s)" ∷ []) (m.steps (negsuc n) d)
          (history.on_steps n d))
