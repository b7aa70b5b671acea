-- ===== src/Command/Migrate/Rollback.antt =====
-- How far `api migrate` can take a schema back.
use experiment_go.Prelude.{
  ℕ, suc, zero, ◌+◌, ◌≤◌, ◌≡◌, inl, inr, refl, String, Bool, true, false, ◌==◌, Option, none, some,
  List, [], ◌∷◌, arith, Bool-cases, if◌then◌else◌,
}
use experiment_go.Prelude.Int.{ℤ, pos, negsuc, ltb_ℤ}
use experiment_go.Prelude.Text.{parse_int}
use experiment_go.Prelude.Errors.{GoError, Result, ok, err}
use experiment_go.Migrator.{
  Engine, Opening, up, down, version, close, connected, with_dsn, with_source, new_migrator,
  to_migrate_dsn,
}
use experiment_go.Migrator.History.{History, UpPromise, DownPromise, up-UpPromise, down-DownPromise}
use experiment_go.Command.Migrate.{
  Run, on_count, on_down, on_version, on_command, closed, command_of, rest_of, opened_migrate,
  run_migrate,
}

abbrev count_of : Option ℤ → ℕ
count_of none = 0
count_of (some (pos n)) = n
count_of (some (negsuc n)) = 0

-- How many migrations the arguments name: `none` stands for any number.
abbrev pub named_down : List String → Option ℕ
named_down [] = some 1
named_down (text ∷ rest) = if text == "all" then none else some (count_of (parse_int text))

abbrev pub named_rollback : String → List String → Option ℕ
named_rollback cmd rest =
    if cmd == "down" then named_down rest else if cmd == "force" then none else some 0

-- At most the named number of migrations is gone.
abbrev pub Within : Option ℕ → ℕ → ℕ → Type 0
Within none before after = Unit
Within (some n) before after = before ≤ after + n

abbrev pub Connects : {D : Type 0} → (D → ℕ) → ℕ → Result (Engine D) × D → D → Type 0
Connects applied total (err e, d') d = applied d' ≡ applied d
Connects applied total (ok m, d') d = (applied d' ≡ applied d) × History applied total m

-- Every engine that a connection gives has a history over the same count, and connecting and
-- failing to connect leave the count alone.
pub record Schema {D : Type 0} (applied : D → ℕ) (total : ℕ) (opening : Opening D) : Type 0 where
  pub bounded : (d : D) → applied d ≤ total
  pub on_connect : (dsn : String) (d : D) → Connects applied total (opening.connect dsn d) d

-- A command "up" keeps the promise of Up.
abbrev pub Reached : Bool → ℕ → Option GoError → ℕ → ℕ → Type 0
Reached true total e before after = UpPromise total e before after
Reached false total e before after = Unit

Within-of_le : (o : Option ℕ) (before after : ℕ) → before ≤ after → Within o before after
Within-of_le none before after h = tt
Within-of_le (some n) before after h = omega arith

UpPromise-le :
    (total : ℕ) (e : Option GoError) (before after : ℕ)
    → before ≤ total
    → UpPromise total e before after
    → before ≤ after
UpPromise-le total none before after le h = omega arith
UpPromise-le total (some e) before after le h = h.0

DownPromise-le :
    (n : ℕ) (e : Option GoError) (before after : ℕ)
    → DownPromise (pos (suc n)) e before after
    → before ≤ after + suc n
DownPromise-le n none before after (inl h) = omega arith
DownPromise-le n none before after (inr h) = omega arith
DownPromise-le n (some e) before after h = h.1

positive_count : (n : ℕ) → ltb_ℤ (pos (suc n)) (pos 1) ≡ false
positive_count n = ground arith

negative_count : (n : ℕ) → ltb_ℤ (negsuc n) (pos 1) ≡ true
negative_count n = ground arith

module _ {D : Type 0} (applied : D → ℕ) (total : ℕ) (m : Engine D)
    (history : History applied total m) where
  abbrev RunWithin : Option ℕ → D → Run D → Type 0
  RunWithin o d (e, (printed, d')) = Within o (applied d) (applied d')

  unchanged : (o : Option ℕ) (d : D) → Within o (applied d) (applied d)
  unchanged o d = Within-of_le o (applied d) (applied d) (omega arith)

  on_count-RunWithin :
      (text : String) (o : Option ℤ) (d : D) → RunWithin (some (count_of o)) d (on_count m text o d)
  on_count-RunWithin text none d = unchanged (some 0) d
  on_count-RunWithin text (some (pos zero)) d = unchanged (some 0) d
  on_count-RunWithin text (some (pos (suc n))) d = rw (positive_count n) (
      DownPromise-le n (down m (pos (suc n)) d).0 (applied d) (applied (down m (pos (suc n)) d).1)
        (down-DownPromise applied total m history (pos (suc n)) d))
  on_count-RunWithin text (some (negsuc n)) d = rw (negative_count n) (unchanged (some 0) d)

  on_version-RunWithin :
      (o : Option ℕ) (r : Result (Option (ℕ × Bool))) (d : D) → RunWithin o d (on_version m r d)
  on_version-RunWithin o (err e) d = unchanged o d
  on_version-RunWithin o (ok none) d = unchanged o d
  on_version-RunWithin o (ok (some (v, dirty))) d = unchanged o d

  on_down-RunWithin :
      (rest : List String) (d : D) → RunWithin (named_down rest) d (on_down m rest d)
  on_down-RunWithin [] d =
      DownPromise-le 0 (down m (pos 1) d).0 (applied d) (applied (down m (pos 1) d).1)
        (down-DownPromise applied total m history (pos 1) d)
  on_down-RunWithin (text ∷ rest) d = elim (Bool-cases (text == "all")) [
    | inl e ↦ rw e tt
    | inr e ↦ rw e (on_count-RunWithin text (parse_int text) d)
  ]

  on_command-RunWithin :
      (cmd : String) (rest : List String) (d : D)
      → applied d ≤ total
      → RunWithin (named_rollback cmd rest) d (on_command m cmd rest d)
        × Reached
            (cmd == "up")
            total
            (on_command m cmd rest d).0
            (applied d)
            (applied (on_command m cmd rest d).1.1)
  unfolding on_command
  on_command-RunWithin cmd rest d le = elim (Bool-cases (cmd == "up")) [
    | inl is_up ↦
        let h = up-UpPromise applied total m history d le in
        rw is_up (
          Within-of_le (named_rollback cmd rest) (applied d) (applied (up m d).1)
              (UpPromise-le total (up m d).0 (applied d) (applied (up m d).1) le h),
          h,
        )
    | inr other ↦ rw other (
      elim (Bool-cases (cmd == "down")) [
        | inl e ↦ rw e (on_down-RunWithin rest d)
        | inr e ↦ rw e (elim (Bool-cases (cmd == "version")) [
          | inl v ↦
              rw v (on_version-RunWithin (if cmd == "force" then none else some 0) (version m d) d)
          | inr v ↦ rw v (elim (Bool-cases (cmd == "force")) [
            | inl f ↦ rw f tt
            | inr f ↦ rw f (unchanged (some 0) d)
          ])
        ])
      ],
      tt,
    )
  ]

  -- What the arguments promise of a run.
  abbrev Migrated : List String → D → Run D → Type 0
  Migrated args d (e, (printed, d')) =
      Within (named_rollback (command_of args) (rest_of args)) (applied d) (applied d')
      × Reached (command_of args == "up") total e (applied d) (applied d')

  closed-Migrated :
      (args : List String) (d d' : D) (r : Run D)
      → applied d' ≡ applied d
      → Within (named_rollback (command_of args) (rest_of args)) (applied d') (applied r.1.1)
        × Reached (command_of args == "up") total r.0 (applied d') (applied r.1.1)
      → Migrated args d (closed m r)
  unfolding close
  closed-Migrated args d d' r same h = rw (← same, history.on_close r.1.1) h

module _ {D : Type 0} (applied : D → ℕ) (total : ℕ) (opening : Opening D)
    (schema : Schema applied total opening) where
  abbrev Promised : List String → D → Run D → Type 0
  Promised args d (e, (printed, d')) =
      Within (named_rollback (command_of args) (rest_of args)) (applied d) (applied d')
      × Reached (command_of args == "up") total e (applied d) (applied d')

  failed-Promised :
      (args : List String) (e : GoError) (d d' : D)
      → applied d' ≡ applied d
      → Promised args d (some e, ([], d'))
  failed-Promised args e d d' same = elim (Bool-cases (command_of args == "up")) [
    | inl is_up ↦ rw is_up (lost, (omega (arith, same), omega (arith, same, schema.bounded d)))
    | inr other ↦ rw other (lost, tt)
  ]
    where
      lost : Within (named_rollback (command_of args) (rest_of args)) (applied d) (applied d')
      lost =
          Within-of_le (named_rollback (command_of args) (rest_of args)) (applied d) (applied d')
            (omega (arith, same))

  connected-Promised :
      (args : List String) (d : D) (r : Result (Engine D) × D)
      → Connects applied total r d
      → Promised args d (opened_migrate args (connected r))
  connected-Promised args d (err e, d') h = failed-Promised args _ d d' h
  connected-Promised args d (ok m, d') h =
      closed-Migrated applied total m h.1 args d d'
        (on_command m (command_of args) (rest_of args) d') h.0
        (on_command-RunWithin applied total m h.1 (command_of args) (rest_of args) d'
          (schema.bounded d'))

  dsn-Promised :
      (args : List String) (d : D) (r : Result String)
      → Promised args d (opened_migrate args (with_dsn opening r d))
  dsn-Promised args d (err e) = failed-Promised args e d d refl
  dsn-Promised args d (ok dsn) =
      connected-Promised args d (opening.connect dsn d) (schema.on_connect dsn d)

  source-Promised :
      (args : List String) (dsn : String) (d : D) (e : Option GoError)
      → Promised args d (opened_migrate args (with_source opening e dsn d))
  source-Promised args dsn d (some e) = failed-Promised args _ d d refl
  source-Promised args dsn d none = dsn-Promised args d (to_migrate_dsn opening.urls dsn)

  pub record MigratePromise (args : List String) (d : D) (r : Run D) : Type 0 where
    pub within :
        Within (named_rollback (command_of args) (rest_of args)) (applied d) (applied r.1.1)
    pub reached : Reached (command_of args == "up") total r.0 (applied d) (applied r.1.1)

  -- Whatever its arguments and however it ends, `api migrate` takes back at most the migrations that
  -- the arguments name: any number for `down all` and `force`, n for `down n`, one for `down`, and
  -- none for anything else, such as a count that is not a positive number. An `up` that returns nil
  -- has applied every migration, and one that fails has lost none.
  pub run_migrate-MigratePromise :
      (args : List String) (dsn : String) (d : D)
      → MigratePromise args d (run_migrate opening args dsn d)
  unfolding run_migrate new_migrator
  run_migrate-MigratePromise args dsn d =
      let promised = source-Promised args dsn d opening.embedded in
      record { within = promised.0; reached = promised.1 }
