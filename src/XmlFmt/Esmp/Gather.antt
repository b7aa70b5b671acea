-- ===== src/XmlFmt/Esmp/Gather.antt =====
-- The batches of a run put together: the parser over a `flush` that writes to a log, against the
-- parser over a `flush` that leaves the batch to grow.
use experiment_go.Prelude.{
  ◌≡◌, refl, ap, ◌∙◌, sym, Bool, true, false, Bool-cases, inl, inr, Option, none, some, List, [],
  ◌∷◌, ◌++◌, ℕ, zero, suc, ◌+◌, if◌then◌else◌, length, ltb, leb, String,
}
use mathlib.Core.List.{append-nil, append_assoc}
use experiment_go.Prelude.Int.{ℤ}
use experiment_go.Prelude.Errors.{GoError, Message, Result, ok, err}
use experiment_go.Consumption.{Time, Reading}
use experiment_go.Consumption.Xml.{Token, Fault}
use experiment_go.XmlFmt.Decode.{Read, skip}
use experiment_go.XmlFmt.Loop.{Cursor, Step, stop, again, starved, loop}
use experiment_go.XmlFmt.Esmp.{Common, Esmp, Flush, Point}
use experiment_go.XmlFmt.Esmp.Rounds.{
  go_on, skipped, skip_child, store, reading_of, append_reading, append_at, append_point,
  after_flush,
}

-- Each batch goes to the end of a log.
abbrev pub to_log : Flush (List Reading)
to_log batch log = (none, ([], log ++ batch))

-- Nothing is flushed.
abbrev pub to_batch : Flush (Unit {0})
to_batch batch w = (none, (batch, w))

-- The rows of the log and those of the batch, in one batch.
abbrev pub gather : Cursor (List Reading) → Cursor (Unit {0})
gather c = record { tokens = c.tokens; batch = c.world ++ c.batch; total = c.total; world = tt }

abbrev pub gather_end : Option GoError × Cursor (List Reading) → Option GoError × Cursor (Unit {0})
gather_end (e, c) = (e, gather c)

abbrev pub gather_return :
    Option (Option GoError × Cursor (List Reading)) → Option (Option GoError × Cursor (Unit {0}))
gather_return none = none
gather_return (some r) = some (gather_end r)

abbrev pub gather_step : {L : Type 0} → Step (List Reading) L → Step (Unit {0}) L
gather_step (stop e c) = stop e (gather c)
gather_step (again l c) = again l (gather c)
gather_step starved = starved

-- A function of a conditional, by the two branches.
pub if_map {ℓ κ} :
    {A : Type ℓ} {B : Type κ} (f : A → B) (test : Bool) {yes no : A} {yes' no' : B}
    → f yes ≡ yes'
    → f no ≡ no'
    → f (if test then yes else no) ≡ (if test then yes' else no')
if_map f true p q = p
if_map f false p q = q

module _ {L : Type 0} where
  pub go_on-gather :
      (l : L) (r : Option GoError × Cursor (List Reading))
      → gather_step (go_on l r) ≡ go_on l (gather_end r)
  go_on-gather l (none, c) = refl
  go_on-gather l (some e, c) = refl

  skipped-gather :
      (doing : Message) (l : L) (c : Cursor (List Reading)) (r : Option GoError × List Token)
      → gather_step (skipped doing l c r) ≡ skipped doing l (gather c) r
  skipped-gather doing l c (none, rest) = refl
  skipped-gather doing l c (some e, rest) = refl

  pub skip_child-gather :
      (fault : Fault) (doing : Message) (l : L) (c : Cursor (List Reading))
      → gather_step (skip_child fault doing l c) ≡ skip_child fault doing l (gather c)
  unfolding skip_child
  skip_child-gather fault doing l c = skipped-gather doing l c (skip fault 0 c.tokens)

  pub store-gather {ℓ} :
      {A : Type ℓ} (doing : Message) (f : A → L) (c : Cursor (List Reading)) (r : Read A)
      → gather_step (store doing f c r) ≡ store doing f (gather c) r
  store-gather doing f c (err e, rest) = refl
  store-gather doing f c (ok a, rest) = refl

  -- Two loops whose rounds agree return the same.
  after_gather :
      (fuel : ℕ) (step : L → Cursor (List Reading) → Step (List Reading) L)
      (step' : L → Cursor (Unit {0}) → Step (Unit {0}) L)
      → ((l : L) (c : Cursor (List Reading))
          → gather_return (loop fuel step l c) ≡ loop fuel step' l (gather c))
      → (s : Step (List Reading) L)
      → gather_return
          (elim s [ stop e c ↦ some (e, c) | again l c ↦ loop fuel step l c | starved ↦ none ])
        ≡ elim (gather_step s) [
          | stop e c ↦ some (e, c)
          | again l c ↦ loop fuel step' l c
          | starved ↦ none
        ]
  after_gather fuel step step' k (stop e c) = refl
  after_gather fuel step step' k (again l c) = k l c
  after_gather fuel step step' k starved = refl

  pub loop-gather :
      (step : L → Cursor (List Reading) → Step (List Reading) L)
      (step' : L → Cursor (Unit {0}) → Step (Unit {0}) L)
      → ((l : L) (c : Cursor (List Reading)) → gather_step (step l c) ≡ step' l (gather c))
      → (fuel : ℕ) (l : L) (c : Cursor (List Reading))
      → gather_return (loop fuel step l c) ≡ loop fuel step' l (gather c)
  unfolding loop
  loop-gather step step' same zero l c = refl
  loop-gather step step' same (suc fuel) l c =
      after_gather fuel step step' (loop-gather step step' same fuel) (step l c)
      ∙ ap
          (λ s. elim s [
            | stop e c ↦ some (e, c)
            | again l c ↦ loop fuel step' l c
            | starved ↦ none
          ])
          (same l c)

module _ (common : Common) (fault : Fault) (p q : Esmp) where
  abbrev limit : ℕ
  limit = common.max_readings_per_document

  flushed-gather :
      (full : Bool) (c : Cursor (List Reading))
      → gather_end
          (if full then after_flush common p fault to_log c (to_log c.batch c.world) else (none, c))
        ≡ (none, gather c)
  flushed-gather true c = simp (append-nil)
  flushed-gather false c = refl

  pub unflushed :
      (full : Bool) (c : Cursor (Unit {0}))
      → (if full then after_flush common q fault to_batch c (to_batch c.batch tt) else (none, c))
        ≡ (none, c)
  unflushed true c = refl
  unflushed false c = refl

  -- Whether the batch is flushed or not, the rows together are the same.
  pub append_reading-gather :
      (r : Reading) (c : Cursor (List Reading))
      → gather_end (append_reading common p fault to_log r c)
        ≡ append_reading common q fault to_batch r (gather c)
  unfolding append_reading
  append_reading-gather r c = elim (Bool-cases (ltb limit (c.total + 1))) [
    | inl over ↦ rw over
    | inr within ↦
        let left = record c { batch = c.batch ++ r ∷ []; total = c.total + 1 } in
        let right = record (gather c) {
          batch = (c.world ++ c.batch) ++ r ∷ [];
          total = c.total + 1;
        } in
        rw within (
          flushed-gather (leb p.batch_rows (length left.batch)) left
          ∙ ap (λ rows. (none, record right { batch = rows }))
              (sym (append_assoc c.world c.batch (r ∷ [])))
          ∙ sym (unflushed (leb q.batch_rows (length right.batch)) right))
  ]

  append_at-gather :
      (f : Time → Reading) (c : Cursor (List Reading)) (start : Result Time)
      → gather_end (append_at common p fault to_log f c start)
        ≡ append_at common q fault to_batch f (gather c) start
  append_at-gather f c (err e) = refl
  append_at-gather f c (ok t) = append_reading-gather (f t) c

  pub append_point-gather :
      (meter business_type unit : String) (t : Time) (res : ℤ) (point : Point)
      (c : Cursor (List Reading))
      → gather_end (append_point common p fault to_log meter business_type unit t res point c)
        ≡ append_point common q fault to_batch meter business_type unit t res point (gather c)
  unfolding append_point
  append_point-gather meter business_type unit t res point c =
      append_at-gather (reading_of meter business_type unit res point) c
        (common.interval_start t point.position res)
