-- ===== src/XmlFmt/Esmp/Blame.antt =====
-- Where the errors of the parser come from: `flush`, or the document. This file has the parts that
-- the loops share.
use experiment_go.Prelude.{
  ℕ, zero, suc, ◌≡◌, refl, ◌⊎◌, inl, String, Bool, Option, none, some, List, [], ◌∷◌, if_both, ◌==◌,
}
use experiment_go.Prelude.Int.{ℤ}
use experiment_go.Prelude.Text.{parse_int, trim_space}
use experiment_go.Prelude.Errors.{GoError, Message, Result, ok, err}
use experiment_go.Consumption.{Time, Reading, Float64}
use experiment_go.Consumption.Xml.{Token, Fault}
use experiment_go.XmlFmt.Decode.{Read, skip, int_or_error, decode_int, decode_float}
use experiment_go.XmlFmt.Loop.{Cursor, Step, stop, again, starved, loop}
use experiment_go.XmlFmt.Esmp.{
  Common, Flush, Point, set_position, set_quantity, set_point, set_mrid,
}
use experiment_go.XmlFmt.Esmp.Rounds.{go_on, skipped, skip_child, store}
use experiment_go.XmlFmt.Decode.Permanent.{IsPermanent, AtError, IfError, skip-IfError}

-- No error of the functions that are not in the repository, or of time.Parse and
-- strconv.ParseFloat, asks for a retry.
pub record Permanent (common : Common) : Type 0 where
  pub on_resolution : (text : String) → AtError (common.parse_resolution text)
  pub on_start :
      (t : Time) (position resolution : ℤ) → AtError (common.interval_start t position resolution)
  pub on_context :
      (meter unit : String) (have_start have_res : Bool)
      → IfError (common.require_point_context meter unit have_start have_res)
  pub on_interval :
      (fault : Fault) (tokens : List Token) → AtError (common.decode_interval fault tokens).0
  pub on_time : (text : String) → AtError (common.parse_rfc3339 text)
  pub on_float : (text : String) → AtError (common.parse_float text)

pub set_mrid-AtError : (child text mrid : String) → AtError (set_mrid child text mrid)
unfolding set_mrid
set_mrid-AtError child text mrid =
    if_both (λ (r : Result String). AtError r) (child == "mRID") tt tt

set_position-AtError :
    (p : Point) (text : String) (o : Option ℤ) → AtError (set_position p (int_or_error text o))
set_position-AtError p text none = refl
set_position-AtError p text (some n) = tt

set_quantity-AtError : (p : Point) (r : Result Float64) → AtError r → AtError (set_quantity p r)
set_quantity-AtError p (err e) h = h
set_quantity-AtError p (ok x) h = tt

pub set_point-AtError :
    (parse_float : String → Result Float64)
    → ((text : String) → AtError (parse_float text))
    → (child text : String) (p : Point) → AtError (set_point parse_float child text p)
unfolding set_point decode_int decode_float
set_point-AtError parse_float floats child text p =
    if_both (λ (r : Result Point). AtError r) (child == "position")
      (if_both (λ (r : Result ℤ). AtError (set_position p r)) (text == "") tt
        (set_position-AtError p text (parse_int (trim_space text))))
      (if_both (λ (r : Result Point). AtError r) (child == "quantity")
        (if_both (λ (r : Result Float64). AtError (set_quantity p r)) (text == "") tt
          (set_quantity-AtError p (parse_float (trim_space text)) (floats (trim_space text))))
        (if_both (λ (r : Result Point). AtError r) (child == "quality") tt tt))

-- The results of `flush`, the newest first.
abbrev pub Calls : Type 0
Calls = List (Option GoError)

-- No call has failed.
abbrev pub Clean : Calls → Type 0
Clean [] = Unit
Clean (none ∷ calls) = Clean calls
Clean (some e ∷ calls) = ⊥

-- The newest call has failed with this error, and no other.
abbrev pub EndsWith : GoError → Calls → Type 0
EndsWith e [] = ⊥
EndsWith e (none ∷ calls) = ⊥
EndsWith e (some x ∷ calls) = (x ≡ e) × Clean calls

module _ {W : Type 0} where
  abbrev pub noted :
      Calls → Option GoError × (List Reading × W) → Option GoError × (List Reading × (W × Calls))
  noted calls (e, (batch, w)) = (e, (batch, (w, e ∷ calls)))

  -- A `flush` that also keeps its results.
  abbrev pub noting : Flush W → Flush (W × Calls)
  noting flush batch (w, calls) = noted calls (flush batch w)

  -- How a method returns: with nil after calls that all succeeded; with an error of the document
  -- after such calls; or with the error of the last call, the only one that failed.
  abbrev pub Blamed : Option GoError → Cursor (W × Calls) → Type 0
  Blamed none c = Clean c.world.1
  Blamed (some e) c = (Clean c.world.1 × IsPermanent e) ⊎ EndsWith e c.world.1

  abbrev pub BlamedBy : Option GoError × Cursor (W × Calls) → Type 0
  BlamedBy (e, c) = Blamed e c

  abbrev pub Returned : Option (Option GoError × Cursor (W × Calls)) → Type 0
  Returned none = Unit
  Returned (some r) = BlamedBy r

  module _ {L : Type 0} where
    abbrev pub Fine : Step (W × Calls) L → Type 0
    Fine (stop e c) = Blamed e c
    Fine (again l c) = Clean c.world.1
    Fine starved = Unit

    after_step-Returned :
        (fuel : ℕ) (step : L → Cursor (W × Calls) → Step (W × Calls) L) (s : Step (W × Calls) L)
        → Fine s
        → ((l : L) (c : Cursor (W × Calls)) → Clean c.world.1 → Returned (loop fuel step l c))
        → Returned (elim s [
          | stop e c' ↦ some (e, c')
          | again l' c' ↦ loop fuel step l' c'
          | starved ↦ none
        ])
    after_step-Returned fuel step (stop e c) h k = h
    after_step-Returned fuel step (again l c) h k = k l c h
    after_step-Returned fuel step starved h k = tt

    pub loop-Returned :
        (step : L → Cursor (W × Calls) → Step (W × Calls) L)
        → ((l : L) (c : Cursor (W × Calls)) → Clean c.world.1 → Fine (step l c))
        → (fuel : ℕ) (l : L) (c : Cursor (W × Calls)) → Clean c.world.1
        → Returned (loop fuel step l c)
    unfolding loop
    loop-Returned step fine zero l c h = tt
    loop-Returned step fine (suc fuel) l c h =
        after_step-Returned fuel step (step l c) (fine l c h) (loop-Returned step fine fuel)

    pub go_on-Fine :
        (l : L) (r : Option GoError × Cursor (W × Calls)) → BlamedBy r → Fine (go_on l r)
    go_on-Fine l (none, c) h = h
    go_on-Fine l (some e, c) h = h

    -- What wraps a permanent error behind ErrMalformed is permanent: it adds malformed alone.
    pub skip_child-Fine :
        (fault : Fault) (doing : Message) (l : L) (c : Cursor (W × Calls))
        → Clean c.world.1
        → Fine (skip_child fault doing l c)
    unfolding skip_child
    skip_child-Fine fault doing l c h =
        skipped-Fine (skip fault 0 c.tokens) (skip-IfError fault 0 c.tokens)
      where
        skipped-Fine : (r : Option GoError × List Token) → IfError r.0 → Fine (skipped doing l c r)
        skipped-Fine (none, rest) k = h
        skipped-Fine (some e, rest) k = inl (h, k)

    pub store-Fine :
        {A : Type 0} (doing : Message) (f : A → L) (c : Cursor (W × Calls)) (r : Read A)
        → Clean c.world.1
        → AtError r.0
        → Fine (store doing f c r)
    store-Fine doing f c (ok a, rest) h k = h
    store-Fine doing f c (err e, rest) h k = inl (h, k)
