-- ===== src/Consumption/Service/Current.antt =====
-- Deliveries of a message against readers of the table: the view readings_current of
-- deploy/terraform/gcp/modules/warehouse/main.tf resolves the duplicates.
use experiment_go.Prelude.{
  ℕ, ◌≡◌, ◌↔◌, ◌⊎◌, inl, inr, refl, sym, ap, ◌∙◌, subst, String, Option, none, List, [], ◌∷◌, ◌++◌,
  arith, All,
}
use mathlib.Core.List.{Memᴰ, append-nil}
use mathlib.Core.List.Memᴰ
use experiment_go.Prelude.Int.{ℤ, ◌≤ℤ◌, ◌<ℤ◌}
use experiment_go.Prelude.Errors.{GoError}
use experiment_go.Consumption.{Time, utc, unix_micro, Reading, Delivery, Sink, StopsOnError}
use experiment_go.Consumption.Xml.{Decoder}
use experiment_go.Consumption.Registry.{Registry, for_document}
use experiment_go.Consumption.Registry.Contract.{AllParsers}
use experiment_go.Consumption.Service.{ingest}
use experiment_go.Consumption.Service.Stored.{IsStamped, journal, ingest-IsCounted}
use experiment_go.Consumption.Service.Replay.{
  document_rows, ingest-Extends, restamp, rows_found-restamp,
}

-- PARTITION BY metering_point_id, interval_start, direction, measure
pub record SameSlot (a b : Reading) : Type 0 where
  pub meter : ◌≡◌ {A = String} a.metering_point_id b.metering_point_id
  pub start : unix_micro (utc a.start) ≡ unix_micro (utc b.start)
  pub direction : ◌≡◌ {A = String} a.direction b.direction
  pub measure : ◌≡◌ {A = String} a.measure b.measure

SameSlot-trans : {a b c : Reading} → SameSlot a b → SameSlot b c → SameSlot a c
SameSlot-trans p q = record {
  meter = p.meter ∙ q.meter;
  start = p.start ∙ q.start;
  direction = p.direction ∙ q.direction;
  measure = p.measure ∙ q.measure;
}

-- The column ingested_at.
abbrev pub ingested : Reading → ℤ
ingested r = unix_micro (utc r.ingested_at)

-- ORDER BY ingested_at DESC, and the first row: the view may show the row.
pub record IsCurrent (table : List Reading) (r : Reading) : Type 0 where
  pub stored : Memᴰ r table
  pub newest : (s : Reading) → Memᴰ s table → SameSlot s r → ingested s ≤ℤ ingested r

-- Rows that are replaced, each by a newer one of its slot among others, are not shown.
module _ (old replaced newer : List Reading)
    (covers : (r : Reading)
      → Memᴰ r replaced
      → (s : Reading) × Memᴰ s newer × SameSlot s r × (ingested r <ℤ ingested s)) where
  into : (s : Reading) → Memᴰ s (old ++ newer) → Memᴰ s (old ++ (replaced ++ newer))
  into s m = elim (Memᴰ.append_cases old m) [
    | inl o ↦ Memᴰ.append_left (replaced ++ newer) o
    | inr n ↦ Memᴰ.append_right old (Memᴰ.append_right replaced n)
  ]

  from_newer : (s : Reading) → Memᴰ s (replaced ++ newer) → Memᴰ s (old ++ newer) ⊎ Memᴰ s replaced
  from_newer s m = elim (Memᴰ.append_cases replaced m) [
    | inl g ↦ inr g
    | inr n ↦ inl (Memᴰ.append_right old n)
  ]

  out_of :
      (s : Reading) → Memᴰ s (old ++ (replaced ++ newer)) → Memᴰ s (old ++ newer) ⊎ Memᴰ s replaced
  out_of s m = elim (Memᴰ.append_cases old m) [
    | inl o ↦ inl (Memᴰ.append_left newer o)
    | inr n ↦ from_newer s n
  ]

  not_replaced :
      (r : Reading)
      → ((s : Reading)
          → Memᴰ s (old ++ (replaced ++ newer))
          → SameSlot s r
          → ingested s ≤ℤ ingested r)
      → ¬ Memᴰ r replaced
  not_replaced r newest m =
      let (s, there, slot, later) = covers r m in
      let earlier = newest s (into s (Memᴰ.append_right old there)) slot in
      absurd (omega (arith, later, earlier))

  without : (r : Reading) → IsCurrent (old ++ (replaced ++ newer)) r → IsCurrent (old ++ newer) r
  without r h = record {
    stored = elim (out_of r h.stored) [ inl m ↦ m | inr m ↦ absurd (not_replaced r h.newest m) ];
    newest = λ s m. h.newest s (into s m);
  }

  along : (r : Reading) → IsCurrent (old ++ newer) r → IsCurrent (old ++ (replaced ++ newer)) r
  along r h = record {
    stored = into r h.stored;
    newest = λ s m slot. elim (out_of s m) [
      | inl kept ↦ h.newest s kept slot
      | inr gone ↦
          let (t, there, same, later) = covers s gone in
          let bound = h.newest t (Memᴰ.append_right old there) (SameSlot-trans same slot) in
          omega (arith, later, bound)
    ];
  }

  replaced_iff :
      (r : Reading) → IsCurrent (old ++ (replaced ++ newer)) r ↔ IsCurrent (old ++ newer) r
  replaced_iff r = (without r, along r)

All-member :
    (P : Reading → Type 0) (rows : List Reading) → All P rows → (r : Reading) → Memᴰ r rows → P r
All-member P [] h r m = elim m [ ]
All-member P (x ∷ rows) h r (Memᴰ.head e) = subst P (sym e) h.0
All-member P (x ∷ rows) h r (Memᴰ.tail m) = All-member P rows h.1 r m

module _ {W : Type 0} (open_document : List ℕ → Decoder) (registry : Registry) (sink : Sink W)
    (msg : Delivery) (stops : AllParsers StopsOnError registry) where
  -- What a delivery at some time stores, beginning in some world.
  abbrev pub stored_at : Time → W → List Reading
  stored_at now w = (ingest open_document registry (journal sink) now msg (w, [])).1.1.1

  abbrev pub result_at : Time → W → Option GoError
  result_at now w = (ingest open_document registry (journal sink) now msg (w, [])).0

  -- Any delivery stores rows of the document, with its own time.
  part :
      (now : Time) (w : W) (r : Reading)
      → Memᴰ r (stored_at now w)
      → Memᴰ r (document_rows open_document registry now msg)
  part now w r m =
      let (new, rest, grown, split, all) =
        ingest-Extends open_document registry sink now msg w stops in
      subst (Memᴰ r) (sym split) (Memᴰ.append_left rest (subst (Memᴰ r) grown m))

  -- One that returns nil stores all of them.
  whole :
      (now : Time) (w : W)
      → result_at now w ≡ none
      → stored_at now w ≡ document_rows open_document registry now msg
  whole now w h =
      let (new, rest, grown, split, all) =
        ingest-Extends open_document registry sink now msg w stops in
      grown ∙ sym (split ∙ ap (λ xs. new ++ xs) (all h) ∙ append-nil new)

  -- A row of the first delivery is in the second, too, with the time of the second.
  again :
      (first second : Time) (w w' : W) (r : Reading)
      → result_at second w' ≡ none
      → Memᴰ r (stored_at first w)
      → Memᴰ (restamp (utc second) r) (stored_at second w')
  again first second w w' r h m =
      let same =
        whole second w' h
        ∙ rows_found-restamp msg.id (utc first) (utc second)
            (for_document registry (open_document msg.payload)) in
      subst (Memᴰ (restamp (utc second) r)) (sym same)
        (Memᴰ.map (restamp (utc second)) (part first w r m))

  stamped_at :
      (now : Time) (w : W) (r : Reading) → Memᴰ r (stored_at now w) → r.ingested_at ≡ utc now
  stamped_at now w r m =
      let counted = ingest-IsCounted open_document registry sink now msg w in
      (All-member (IsStamped msg.id (utc now)) (stored_at now w) counted.1 r m).at

  -- What deliveries at some times have stored, each beginning in some world.
  abbrev pub stored_by : List (Time × W) → List Reading
  stored_by [] = []
  stored_by ((now, w) ∷ deliveries) = stored_at now w ++ stored_by deliveries

  -- The delivery was before `last`, by the clock of the table.
  abbrev pub IsBefore : Time → Time × W → Type 0
  IsBefore last (now, w) = unix_micro (utc now) <ℤ unix_micro (utc last)

  module _ (last : Time) (w' : W) (h : result_at last w' ≡ none) where
    -- The row that replaces one of an earlier delivery.
    abbrev Replaces : Reading → Type 0
    Replaces r =
        (s : Reading) × Memᴰ s (stored_at last w') × SameSlot s r × (ingested r <ℤ ingested s)

    replaced_at :
        (now : Time) (w : W)
        → IsBefore last (now, w)
        → (r : Reading) → Memᴰ r (stored_at now w)
        → Replaces r
    replaced_at now w later r m = (
      restamp (utc last) r,
      again now last w w' r h m,
      record { meter = refl; start = refl; direction = refl; measure = refl },
      subst (λ t. unix_micro (utc t) <ℤ unix_micro (utc last)) (sym (stamped_at now w r m)) later,
    )

    replaced_by :
        (deliveries : List (Time × W))
        → All (IsBefore last) deliveries
        → (r : Reading) → Memᴰ r (stored_by deliveries)
        → Replaces r
    replaced_by [] later r m = absurd (Memᴰ.not-nil m)
    replaced_by ((now, w) ∷ deliveries) later r m = elim (Memᴰ.append_cases (stored_at now w) m) [
      | inl here ↦ replaced_at now w later.0 r here
      | inr there ↦ replaced_by deliveries later.1 r there
    ]

  -- Redelivery leaves no trace for readers of the view readings_current, which shows of each slot
  -- (metering point, start, direction and measure) a row with the newest time of ingestion. Let the
  -- registered parsers stop at the first error of `emit`. Whatever any number of deliveries of a
  -- message have stored, in part because their writes failed, or in full, and whatever else is in the
  -- table: if a delivery of the message at a later time returns nil, the view may show exactly the
  -- rows that it may show if the others had not been.
  pub redelivery-IsCurrent :
      (deliveries : List (Time × W)) (last : Time) (w' : W) (old : List Reading)
      → result_at last w' ≡ none
      → All (IsBefore last) deliveries
      → (r : Reading)
      → IsCurrent (old ++ (stored_by deliveries ++ stored_at last w')) r
        ↔ IsCurrent (old ++ stored_at last w') r
  redelivery-IsCurrent deliveries last w' old h later =
      replaced_iff old (stored_by deliveries) (stored_at last w')
        (replaced_by last w' h deliveries later)
