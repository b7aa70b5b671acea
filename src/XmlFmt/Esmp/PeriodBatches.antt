-- ===== src/XmlFmt/Esmp/PeriodBatches.antt =====
-- Rounds of the loops keep the bounds on the batch and take tokens; parsePeriod as a whole.
use experiment_go.Prelude.{
  ℕ, suc, ◌≤◌, ◌<◌, ◌≡◌, refl, String, Option, none, some, List, [], ◌∷◌, arith, length, if_both,
  true, ◌==◌, ◌||◌,
}
use experiment_go.Prelude.Int.{ℤ}
use experiment_go.Prelude.Errors.{GoError, Result, ok, err, Message, lit, str}
use experiment_go.Consumption.{Time}
use experiment_go.Consumption.Xml.{Token, Fault}
use experiment_go.XmlFmt.Decode.{skip, decode_text, decode_struct, Read}
use experiment_go.XmlFmt.Decode.Shrink.{length-skip, length-decode_text, length-children}
use experiment_go.XmlFmt.Loop.{Cursor, Step, again, Ensures, Progress, loop-Ensures}
use experiment_go.XmlFmt.Esmp.{Common, Esmp, Flush, Point, Period, new_period, set_point, no_point}
use experiment_go.XmlFmt.Esmp.Rounds.{
  append_point, go_on, skipped, skip_child, store, set_start, read_interval, set_resolution,
  read_resolution, read_point, point_context, on_point, period_child, period_token, period_step,
  parse_period,
}
use experiment_go.XmlFmt.Esmp.Batches.{Flushes, Kept, Left, LeftBy, append_point-Left}

module _ (p : Esmp) {W : Type 0} (Inv : W → Type 0) (limit : ℕ) where
  pub retoken :
      {c : Cursor W} (tokens : List Token)
      → Kept p Inv limit c
      → Kept p Inv limit (record c { tokens = tokens })
  retoken tokens k = record { rows = k.rows; short = k.short; counted = k.counted; world = k.world }

  module _ {L : Type 0} (n : ℕ) (before : Cursor W) (within : length before.tokens ≤ n) where
    -- A round that began at `before` keeps the bounds, or ends within them.
    abbrev pub Goes : Step W L → Type 0
    Goes = Progress (λ l c. Kept p Inv limit c × (length c.tokens ≤ n)) (Left p Inv limit n) before

    pub again-Goes :
        (l : L) (c : Cursor W)
        → Kept p Inv limit c
        → length c.tokens < length before.tokens
        → Goes (again l c)
    again-Goes l c k s = ((k, omega arith), s)

    pub go_on-Goes :
        (l : L) (m : ℕ) (r : Option GoError × Cursor W)
        → LeftBy p Inv limit m r
        → m < length before.tokens
        → Goes (go_on l r)
    go_on-Goes l m (none, c) h s = ((h.0, omega (arith, h.1)), omega (arith, h.1))
    go_on-Goes l m (some e, c) h s = h

    skipped-Goes :
        (doing : Message) (l : L) (c : Cursor W) (r : Option GoError × List Token)
        → Kept p Inv limit c
        → length r.1 < length before.tokens
        → Goes (skipped doing l c r)
    skipped-Goes doing l c (none, rest) k s =
        again-Goes l (record c { tokens = rest }) (retoken rest k) s
    skipped-Goes doing l c (some e, rest) k s = k.world

    pub skip_child-Goes :
        (fault : Fault) (doing : Message) (l : L) (c : Cursor W)
        → Kept p Inv limit c
        → length c.tokens < length before.tokens
        → Goes (skip_child fault doing l c)
    unfolding skip_child
    skip_child-Goes fault doing l c k s =
        skipped-Goes doing l c (skip fault 0 c.tokens) k
          (omega (arith, length-skip fault 0 c.tokens))

    pub store-Goes {ℓ} :
        {A : Type ℓ} (doing : Message) (f : A → L) (c : Cursor W) (r : Read A)
        → Kept p Inv limit c
        → length r.1 < length before.tokens
        → Goes (store doing f c r)
    store-Goes doing f c (ok a, rest) k s =
        again-Goes (f a) (record c { tokens = rest }) (retoken rest k) s
    store-Goes doing f c (err e, rest) k s = k.world

module _ (p : Esmp) {W : Type 0} (Inv : W → Type 0) (positive : 0 < p.batch_rows) (common : Common)
    (fault : Fault) (flush : Flush W) (flushes : Flushes p Inv flush)
    (reads : (tokens : List Token)
      → length (common.decode_interval fault tokens).1 ≤ length tokens) where
  abbrev limit : ℕ
  limit = common.max_readings_per_document

  module _ (meter business_type unit : String) where
    module _ (n : ℕ) (before : Cursor W) (within : length before.tokens ≤ n) (l : Period)
        (c : Cursor W) (k : Kept p Inv limit c) where
      abbrev Going : Step W Period → Type 0
      Going = Goes p Inv limit n before within

      read_interval-Goes :
          (r : Read String)
          → length r.1 < length before.tokens
          → Going (read_interval common p fault flush meter business_type unit l c r)
      read_interval-Goes (err e, rest) s = k.world
      read_interval-Goes (ok text, rest) s =
          set_start-Goes (common.parse_rfc3339 (common.normalise_instant text))
        where
          set_start-Goes :
              (t : Result Time)
              → Going (
                  set_start common p fault flush meter business_type unit l
                    (record c { tokens = rest })
                    text
                    t)
          set_start-Goes (ok t) = ((retoken p Inv limit rest k, omega arith), s)
          set_start-Goes (err e) = k.world

      read_resolution-Goes :
          (r : Read String)
          → length r.1 < length before.tokens
          → Going (read_resolution common p fault flush meter business_type unit l c r)
      read_resolution-Goes (err e, rest) s = k.world
      read_resolution-Goes (ok raw, rest) s = set_resolution-Goes (common.parse_resolution raw)
        where
          set_resolution-Goes :
              (t : Result ℤ)
              → Going (
                  set_resolution common p fault flush meter business_type unit l
                    (record c { tokens = rest })
                    t)
          set_resolution-Goes (ok t) = ((retoken p Inv limit rest k, omega arith), s)
          set_resolution-Goes (err e) = k.world

      read_point-Goes :
          (l' : Period) (r : Read Point)
          → length r.1 < length before.tokens
          → Going (read_point common p fault flush meter business_type unit l' c r)
      read_point-Goes l' (err e, rest) s = k.world
      read_point-Goes l' (ok point, rest) s =
          go_on-Goes p Inv limit n before within l' (length rest)
            (append_point common p fault flush meter business_type unit l'.start_time l'.resolution
              point (record c { tokens = rest }))
            (append_point-Left p Inv positive common fault flush flushes meter business_type unit
              l'.start_time l'.resolution point (record c { tokens = rest }) (length rest)
              (retoken p Inv limit rest k) (omega arith))
            s

      on_point-Goes :
          (e : Option GoError)
          → length c.tokens < length before.tokens
          → Going (on_point common p fault flush meter business_type unit l c e)
      on_point-Goes (some e) s = k.world
      on_point-Goes none s =
          read_point-Goes (record l { point_seen = true })
            (decode_struct fault (set_point common.parse_float) no_point c.tokens)
            (omega (arith, length-children fault none c.tokens))

      period_child-Goes :
          (name : String)
          → length c.tokens < length before.tokens
          → Going (period_child common p fault flush meter business_type unit name l c)
      unfolding period_child
      period_child-Goes name s =
          if_both Going (name == "timeInterval" || name == "resolution")
            (if_both Going l.point_seen k.world (
              if_both Going (name == "timeInterval")
                (read_interval-Goes (common.decode_interval fault c.tokens)
                  (omega (arith, reads c.tokens)))
                (read_resolution-Goes (decode_text fault 0 "" c.tokens)
                  (omega (arith, length-decode_text fault 0 "" c.tokens)))))
            (if_both Going (name == "Point")
              (on_point-Goes (point_context common p fault flush meter business_type unit l) s)
              (skip_child-Goes p Inv limit n before within fault
                (lit "skipping Period child " ∷ str name ∷ []) l c k s))

    period_token-Goes :
        (n : ℕ) (l : Period) (c : Cursor W) (tokens : List Token)
        → length tokens ≡ length c.tokens
        → (within : length c.tokens ≤ n) → (k : Kept p Inv limit c)
        → Goes p Inv limit n c within
            (period_token common p fault flush meter business_type unit l c tokens)
    unfolding period_token
    period_token-Goes n l c [] e within k = k.world
    period_token-Goes n l c (Token.end_element m ∷ rest) e within k =
        if_both (Goes p Inv limit n c within) (m.local == "Period")
          (retoken p Inv limit rest k, omega arith)
          ((retoken p Inv limit rest k, omega arith), omega arith)
    period_token-Goes n l c (Token.start_element m ∷ rest) e within k =
        period_child-Goes n c within l (record c { tokens = rest }) (retoken p Inv limit rest k)
          m.local (omega arith)
    period_token-Goes n l c (_ ∷ rest) e within k =
        ((retoken p Inv limit rest k, omega arith), omega arith)

    -- parsePeriod returns, with an error or within the bounds, and adds no tokens.
    pub parse_period-Left :
        (c : Cursor W)
        → Kept p Inv limit c
        → Ensures
            (Left p Inv limit (length c.tokens))
            (parse_period common p fault flush meter business_type unit c)
    unfolding parse_period
    parse_period-Left c k =
        loop-Ensures (λ l c'. Kept p Inv limit c' × (length c'.tokens ≤ length c.tokens))
          (Left p Inv limit (length c.tokens))
          (period_step common p fault flush meter business_type unit)
          (λ l c' h. period_token-Goes (length c.tokens) l c' c'.tokens refl h.1 h.0)
          (suc (length c.tokens)) new_period c (k, omega arith) (omega arith)
