-- ===== src/XmlFmt/Esmp/Batches.antt =====
-- The parser keeps memory bounded: what it hands to `flush`, and what it holds when it returns.
use experiment_go.Prelude.{
  ℕ, ◌+◌, ◌≤◌, ◌<◌, ◌≡◌, String, Option, none, some, List, [], ◌∷◌, ◌++◌, arith, All, All-append,
  length, length-append, Bool-cases, inl, inr, ltb, leb,
}
use experiment_go.Prelude.Int.{ℤ}
use experiment_go.Prelude.Errors.{GoError, Result, ok, err}
use experiment_go.Consumption.{Time, Reading}
use experiment_go.Consumption.Xml.{Fault}
use experiment_go.XmlFmt.Loop.{Cursor}
use experiment_go.XmlFmt.Esmp.{Common, Esmp, Flush, Point}
use experiment_go.XmlFmt.Esmp.Rounds.{
  reading_of, append_reading, append_at, append_point, after_flush,
}
use experiment_go.XmlFmt.Esmp.Canonical.{IsCanonical, reading_of-IsCanonical}

module _ (p : Esmp) {W : Type 0} (Inv : W → Type 0) where
  -- What `flush` promises: it keeps `Inv`, and empties the batch unless it fails.
  abbrev pub Flushed : Option GoError × (List Reading × W) → Type 0
  Flushed (none, (batch, w)) = (batch ≡ []) × Inv w
  Flushed (some e, (batch, w)) = Inv w

  -- `flush` keeps that promise on batches of canonical rows that are not larger than batch_rows.
  abbrev pub Flushes : Flush W → Type 0
  Flushes flush =
      (batch : List Reading) (w : W)
      → All IsCanonical batch
      → length batch ≤ p.batch_rows
      → Inv w
      → Flushed (flush batch w)

  -- Between two rows: the batch is canonical and not full, the count within the limit.
  pub record Kept (limit : ℕ) (c : Cursor W) : Type 0 where
    pub rows : All IsCanonical c.batch
    pub short : length c.batch < p.batch_rows
    pub counted : c.total ≤ limit
    pub world : Inv c.world

  -- How a method that started with `n` tokens or more leaves the cursor.
  abbrev pub Left : ℕ → ℕ → Option GoError → Cursor W → Type 0
  Left limit n none c = Kept limit c × (length c.tokens ≤ n)
  Left limit n (some e) c = Inv c.world

  abbrev pub LeftBy : ℕ → ℕ → Option GoError × Cursor W → Type 0
  LeftBy limit n (e, c) = Left limit n e c

  module _ (positive : 0 < p.batch_rows) (common : Common) (fault : Fault) (flush : Flush W)
      (flushes : Flushes flush) where
    abbrev limit : ℕ
    limit = common.max_readings_per_document

    after_flush-Left :
        (c : Cursor W) (n : ℕ) (r : Option GoError × (List Reading × W))
        → Flushed r
        → c.total ≤ limit
        → length c.tokens ≤ n
        → LeftBy limit n (after_flush common p fault flush c r)
    after_flush-Left c n (none, (batch, w)) h t s =
        (record { rows = rw h.0 tt; short = rw h.0 positive; counted = t; world = h.1 }, s)
    after_flush-Left c n (some e, (batch, w)) h t s = h

    room-Left :
        (r : Reading) (c : Cursor W) (n : ℕ)
        → IsCanonical r
        → Kept limit c
        → length c.tokens ≤ n
        → c.total + 1 ≤ limit
        → length (c.batch ++ r ∷ []) < p.batch_rows
        → LeftBy limit n (none, record c { batch = c.batch ++ r ∷ []; total = c.total + 1 })
    room-Left r c n v k s t b = (
      record {
        rows = All-append IsCanonical c.batch (r ∷ []) k.rows (v, tt);
        short = b;
        counted = t;
        world = k.world;
      },
      s,
    )

    append_reading-Left :
        (r : Reading) (c : Cursor W) (n : ℕ)
        → IsCanonical r
        → Kept limit c
        → length c.tokens ≤ n
        → LeftBy limit n (append_reading common p fault flush r c)
    unfolding append_reading
    append_reading-Left r c n v k s = elim (Bool-cases (ltb limit (c.total + 1))) [
      | inl over ↦ rw over k.world
      | inr within ↦
          let batch = c.batch ++ r ∷ [] in
          let total_ok : c.total + 1 ≤ limit = ground arith in
          elim (Bool-cases (leb p.batch_rows (length batch))) [
            | inl full ↦
                rw (within, full)
                  (after_flush-Left (record c { batch = batch; total = c.total + 1 }) n
                    (flush batch c.world)
                    (flushes batch c.world (All-append IsCanonical c.batch (r ∷ []) k.rows (v, tt))
                      (omega (arith, k.short, length-append {0} c.batch (r ∷ []))) k.world)
                    total_ok s)
            | inr room ↦ rw (within, room) (room-Left r c n v k s total_ok (ground arith))
          ]
    ]

    module _ (meter business_type unit : String) where
      append_at-Left :
          (res : ℤ) (point : Point) (c : Cursor W) (n : ℕ) (start : Result Time)
          → Kept limit c
          → length c.tokens ≤ n
          → LeftBy limit n (
              append_at common p fault flush
                (reading_of meter business_type unit res point)
                c
                start)
      append_at-Left res point c n (err e) k s = k.world
      append_at-Left res point c n (ok t) k s =
          append_reading-Left (reading_of meter business_type unit res point t) c n
            (reading_of-IsCanonical meter business_type unit res point t) k s

      pub append_point-Left :
          (t : Time) (res : ℤ) (point : Point) (c : Cursor W) (n : ℕ)
          → Kept limit c
          → length c.tokens ≤ n
          → LeftBy limit n
              (append_point common p fault flush meter business_type unit t res point c)
      unfolding append_point
      append_point-Left t res point c n =
          append_at-Left res point c n (common.interval_start t point.position res)
