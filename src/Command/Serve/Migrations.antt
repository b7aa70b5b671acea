-- ===== src/Command/Serve/Migrations.antt =====
-- A migration leaves nothing open, in serve and on the command line.
use experiment_go.Prelude.{
  ◌≡◌, refl, ap, ◌∙◌, ℕ, String, Bool, true, false, ◌==◌, Option, none, some, List, [], ◌∷◌,
  if_both, Bool-cases, inl, inr,
}
use experiment_go.Prelude.Int.{ℤ, pos, leb_ℤ, ltb_ℤ, ◌-ℤ◌}
use experiment_go.Prelude.Text.{parse_int}
use experiment_go.Prelude.Errors.{GoError, Message, Result, ok, err, lit, num, no_change, is_error}
use experiment_go.Migrator.{
  Engine, Opening, up, down, force, version, after_up, unless_no_change, close, connected, with_dsn,
  with_source, new_migrator, to_migrate_dsn,
}
use experiment_go.Command.Migrate.{
  Run, on_count, on_down, on_version, on_forced, on_force, on_command, command_of, rest_of,
  opened_migrate, run_migrate, opened_up, migrate_up,
}
use experiment_go.Command.Serve.Trace.{
  migrations, Event, opened, closed, held, step, nothing, Engaged, Keeps, Holds, Holds-step,
  Holds-same,
}

-- The world behind a call is the engine's.
module _ {W : Type 0} where
  after_up-world : (m : Engine W) (r : Option GoError × W) → (after_up m r).1 ≡ r.1
  after_up-world m (none, w) = refl
  after_up-world m (some e, w) =
      if_both (λ (x : Option GoError × W). x.1 ≡ w) (is_error e no_change) refl refl

  unless_no_change-world :
      (m : Engine W) (doing : Message) (r : Option GoError × W)
      → (unless_no_change m doing r).1 ≡ r.1
  unless_no_change-world m doing (none, w) = refl
  unless_no_change-world m doing (some e, w) =
      if_both (λ (x : Option GoError × W). x.1 ≡ w) (is_error e no_change) refl refl

module _ {W : Type 0} (events : W → List Event) where
  module _ (m : Engine W) (keeps : Keeps events m) where
    abbrev Same : W → Run W → Type 0
    Same w (e, (printed, w')) = events w' ≡ events w

    up-same : (w : W) → events (up m w).1 ≡ events w
    unfolding up
    up-same w = ap events (after_up-world m (m.up w)) ∙ keeps.on_up w

    down-same : (n : ℤ) (w : W) → events (down m n w).1 ≡ events w
    unfolding down
    down-same n w = elim (Bool-cases (leb_ℤ n (pos 0))) [
      | inl all ↦ rw all (
          ap events (unless_no_change-world m (lit "roll back all migrations" ∷ []) (m.down w))
          ∙ keeps.on_down w)
      | inr some_of ↦ rw some_of (
          ap events (
            unless_no_change-world m (lit "roll back " ∷ num n ∷ lit " migration(s)" ∷ [])
              (m.steps (pos 0 -ℤ n) w))
          ∙ keeps.on_steps (pos 0 -ℤ n) w)
    ]

    on_count-Same : (text : String) (o : Option ℤ) (w : W) → Same w (on_count m text o w)
    on_count-Same text none w = refl
    on_count-Same text (some n) w = if_both (Same w) (ltb_ℤ n (pos 1)) refl (down-same n w)

    on_down-Same : (rest : List String) (w : W) → Same w (on_down m rest w)
    on_down-Same [] w = down-same (pos 1) w
    on_down-Same (text ∷ rest) w =
        if_both (Same w) (text == "all") (down-same (pos 0) w)
          (on_count-Same text (parse_int text) w)

    on_version-Same : (r : Result (Option (ℕ × Bool))) (w : W) → Same w (on_version m r w)
    on_version-Same (err e) w = refl
    on_version-Same (ok none) w = refl
    on_version-Same (ok (some (v, dirty))) w = refl

    on_forced-Same : (text : String) (o : Option ℤ) (w : W) → Same w (on_forced m text o w)
    unfolding force
    on_forced-Same text none w = refl
    on_forced-Same text (some v) w = if_both (Same w) (ltb_ℤ v (pos 0)) refl (keeps.on_force v w)

    on_force-Same : (rest : List String) (w : W) → Same w (on_force m rest w)
    on_force-Same [] w = refl
    on_force-Same (text ∷ rest) w = on_forced-Same text (parse_int text) w

    on_command-Same : (cmd : String) (rest : List String) (w : W) → Same w (on_command m cmd rest w)
    unfolding on_command
    on_command-Same cmd rest w = if_both (Same w) (cmd == "up") (up-same w) (
        if_both (Same w) (cmd == "down") (on_down-Same rest w) (
          if_both (Same w) (cmd == "version") (on_version-Same (version m w) w)
            (if_both (Same w) (cmd == "force") (on_force-Same rest w) refl)))

    -- From the connection to its closing.
    closed-Holds :
        (w w' w'' : W)
        → events w' ≡ opened migrations ∷ events w
        → events w'' ≡ events w'
        → Holds events nothing w
        → Holds events nothing (m.close w'').1
    unfolding step
    closed-Holds w w' w'' traced same holds =
        let migrating = held true false false false false in
        Holds-step events (closed migrations) migrating nothing w'' (m.close w'').1 refl
          (keeps.on_close w'')
          (Holds-same events migrating w' w'' same
            (Holds-step events (opened migrations) nothing migrating w w' refl traced holds))

  Engaged-Holds :
      (r : Result (Engine W) × W) (w : W)
      → Engaged events w r
      → Holds events nothing w
      → Holds events nothing (opened_up (connected r)).1
  unfolding close
  Engaged-Holds (err e, w') w traced holds = Holds-same events nothing w w' traced holds
  Engaged-Holds (ok m, w') w (traced, keeps) holds =
      closed-Holds m keeps w w' (up m w').1 traced (up-same m keeps w') holds

  run-Holds :
      (args : List String) (r : Result (Engine W) × W) (w : W)
      → Engaged events w r
      → Holds events nothing w
      → Holds events nothing (opened_migrate args (connected r)).1.1
  unfolding close
  run-Holds args (err e, w') w traced holds = Holds-same events nothing w w' traced holds
  run-Holds args (ok m, w') w (traced, keeps) holds =
      closed-Holds m keeps w w' (on_command m (command_of args) (rest_of args) w').1.1 traced
        (on_command-Same m keeps (command_of args) (rest_of args) w') holds

  module _ (opening : Opening W)
      (on_connect : (dsn : String) (w : W) → Engaged events w (opening.connect dsn w)) where
    -- Until the connection, the world is not touched.
    with_dsn-Holds :
        (r : Result String) (w : W)
        → Holds events nothing w
        → Holds events nothing (opened_up (with_dsn opening r w)).1
    with_dsn-Holds (err e) w holds = holds
    with_dsn-Holds (ok dsn) w holds =
        Engaged-Holds (opening.connect dsn w) w (on_connect dsn w) holds

    pub migrate_up-Holds :
        (dsn : String) (w : W)
        → Holds events nothing w
        → Holds events nothing (migrate_up opening dsn w).1
    unfolding migrate_up new_migrator
    migrate_up-Holds dsn w holds = source-Holds opening.embedded
      where
        source-Holds :
            (e : Option GoError) → Holds events nothing (opened_up (with_source opening e dsn w)).1
        source-Holds (some e) = holds
        source-Holds none = with_dsn-Holds (to_migrate_dsn opening.urls dsn) w holds

    run_dsn-Holds :
        (args : List String) (r : Result String) (w : W)
        → Holds events nothing w
        → Holds events nothing (opened_migrate args (with_dsn opening r w)).1.1
    run_dsn-Holds args (err e) w holds = holds
    run_dsn-Holds args (ok dsn) w holds =
        run-Holds args (opening.connect dsn w) w (on_connect dsn w) holds

    pub run_migrate-Holds :
        (args : List String) (dsn : String) (w : W)
        → Holds events nothing w
        → Holds events nothing (run_migrate opening args dsn w).1.1
    unfolding run_migrate new_migrator
    run_migrate-Holds args dsn w holds = source-Holds opening.embedded
      where
        source-Holds :
            (e : Option GoError)
            → Holds events nothing (opened_migrate args (with_source opening e dsn w)).1.1
        source-Holds (some e) = holds
        source-Holds none = run_dsn-Holds args (to_migrate_dsn opening.urls dsn) w holds
