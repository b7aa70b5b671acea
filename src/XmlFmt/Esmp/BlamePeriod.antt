-- ===== src/XmlFmt/Esmp/BlamePeriod.antt =====
-- parsePeriod returns the error of `flush`, or a permanent one.
use experiment_go.Prelude.{
  ◌+◌, refl, suc, inl, inr, String, true, ◌||◌, Option, none, some, List, [], ◌∷◌, ◌++◌, ◌==◌,
  length, ltb, leb, if_both,
}
use experiment_go.Prelude.Int.{ℤ}
use experiment_go.Prelude.Errors.{GoError, Result, ok, err, lit, str}
use experiment_go.Consumption.{Time, Reading}
use experiment_go.Consumption.Xml.{Token, Fault}
use experiment_go.XmlFmt.Decode.{Read, decode_text}
use experiment_go.XmlFmt.Decode.Permanent.{
  AtError, IfError, fault_error-IsPermanent, decode_text-AtError, decode_struct-AtError,
}
use experiment_go.XmlFmt.Loop.{Cursor}
use experiment_go.XmlFmt.Esmp.{Common, Esmp, Flush, Point, set_point, no_point, Period, new_period}
use experiment_go.XmlFmt.Esmp.Rounds.{
  after_flush, append_reading, append_at, append_point, reading_of, set_start, read_interval,
  set_resolution, read_resolution, read_point, point_context, on_point, period_child, period_token,
  period_step, parse_period,
}
use experiment_go.XmlFmt.Esmp.Blame.{
  Permanent, Calls, Clean, noted, noting, BlamedBy, Returned, Fine, loop-Returned, go_on-Fine,
  skip_child-Fine, set_point-AtError,
}

module _ {W : Type 0} (common : Common) (permanent : Permanent common) (p : Esmp) (fault : Fault)
    (flush : Flush W) where
  abbrev pub At : Type 0
  At = Cursor (W × Calls)

  after_flush-Blamed :
      (c : At) (calls : Calls) (r : Option GoError × (List Reading × W))
      → Clean calls
      → BlamedBy (after_flush common p fault (noting flush) c (noted calls r))
  after_flush-Blamed c calls (none, (batch, w)) h = h
  after_flush-Blamed c calls (some e, (batch, w)) h = inr (refl, h)

  append_reading-Blamed :
      (r : Reading) (c : At)
      → Clean c.world.1
      → BlamedBy (append_reading common p fault (noting flush) r c)
  unfolding append_reading
  append_reading-Blamed r c h =
      if_both BlamedBy (ltb common.max_readings_per_document (c.total + 1)) (inl (h, refl)) (
        if_both BlamedBy (leb p.batch_rows (length (c.batch ++ r ∷ [])))
          (after_flush-Blamed (record c { batch = c.batch ++ r ∷ []; total = c.total + 1 })
            c.world.1 (flush (c.batch ++ r ∷ []) c.world.0) h)
          h)

  append_at-Blamed :
      (r : Time → Reading) (c : At) (start : Result Time)
      → Clean c.world.1
      → AtError start
      → BlamedBy (append_at common p fault (noting flush) r c start)
  append_at-Blamed r c (err e) h k = inl (h, k)
  append_at-Blamed r c (ok start) h k = append_reading-Blamed (r start) c h

  module _ (meter business_type unit : String) where
    set_start-Fine :
        (l : Period) (c : At) (text : String) (t : Result Time)
        → Clean c.world.1
        → AtError t
        → Fine (set_start common p fault (noting flush) meter business_type unit l c text t)
    set_start-Fine l c text (err e) h k = inl (h, k)
    set_start-Fine l c text (ok t) h k = h

    read_interval-Fine :
        (l : Period) (c : At) (r : Read String)
        → Clean c.world.1
        → AtError r.0
        → Fine (read_interval common p fault (noting flush) meter business_type unit l c r)
    read_interval-Fine l c (err e, rest) h k = inl (h, k)
    read_interval-Fine l c (ok text, rest) h k =
        set_start-Fine l (record c { tokens = rest }) text
          (common.parse_rfc3339 (common.normalise_instant text)) h
          (permanent.on_time (common.normalise_instant text))

    set_resolution-Fine :
        (l : Period) (c : At) (r : Result ℤ)
        → Clean c.world.1
        → AtError r
        → Fine (set_resolution common p fault (noting flush) meter business_type unit l c r)
    set_resolution-Fine l c (err e) h k = inl (h, k)
    set_resolution-Fine l c (ok n) h k = h

    read_resolution-Fine :
        (l : Period) (c : At) (r : Read String)
        → Clean c.world.1
        → AtError r.0
        → Fine (read_resolution common p fault (noting flush) meter business_type unit l c r)
    read_resolution-Fine l c (err e, rest) h k = inl (h, k)
    read_resolution-Fine l c (ok raw, rest) h k =
        set_resolution-Fine l (record c { tokens = rest }) (common.parse_resolution raw) h
          (permanent.on_resolution raw)

    read_point-Fine :
        (l : Period) (c : At) (r : Read Point)
        → Clean c.world.1
        → AtError r.0
        → Fine (read_point common p fault (noting flush) meter business_type unit l c r)
    unfolding append_point
    read_point-Fine l c (err e, rest) h k = inl (h, k)
    read_point-Fine l c (ok point, rest) h k =
        go_on-Fine l
          (append_point common p fault (noting flush) meter business_type unit l.start_time
            l.resolution point (record c { tokens = rest }))
          (append_at-Blamed (reading_of meter business_type unit l.resolution point)
            (record c { tokens = rest })
            (common.interval_start l.start_time point.position l.resolution) h
            (permanent.on_start l.start_time point.position l.resolution))

    on_point-Fine :
        (l : Period) (c : At) (e : Option GoError)
        → Clean c.world.1
        → IfError e
        → Fine (on_point common p fault (noting flush) meter business_type unit l c e)
    on_point-Fine l c (some e) h k = inl (h, k)
    on_point-Fine l c none h k =
        read_point-Fine (record l { point_seen = true }) c _ h
          (decode_struct-AtError fault (set_point common.parse_float)
            (set_point-AtError common.parse_float permanent.on_float) no_point c.tokens)

    period_child-Fine :
        (name : String) (l : Period) (c : At)
        → Clean c.world.1
        → Fine (period_child common p fault (noting flush) meter business_type unit name l c)
    unfolding period_child
    period_child-Fine name l c h =
        if_both Fine (name == "timeInterval" || name == "resolution")
          (if_both Fine l.point_seen (inl (h, refl)) (
            if_both Fine (name == "timeInterval")
              (read_interval-Fine l c (common.decode_interval fault c.tokens) h
                (permanent.on_interval fault c.tokens))
              (read_resolution-Fine l c (decode_text fault 0 "" c.tokens) h
                (decode_text-AtError fault 0 "" c.tokens))))
          (if_both Fine (name == "Point")
            (on_point-Fine l c
              (point_context common p fault (noting flush) meter business_type unit l) h
              (if_both IfError l.point_seen tt
                (permanent.on_context meter unit l.have_start l.have_res)))
            (skip_child-Fine fault (lit "skipping Period child " ∷ str name ∷ []) l c h))

    period_token-Fine :
        (l : Period) (c : At) (tokens : List Token)
        → Clean c.world.1
        → Fine (period_token common p fault (noting flush) meter business_type unit l c tokens)
    unfolding period_token
    period_token-Fine l c [] h = inl (h, fault_error-IsPermanent fault)
    period_token-Fine l c (Token.end_element n ∷ rest) h = if_both Fine (n.local == "Period") h h
    period_token-Fine l c (Token.start_element n ∷ rest) h =
        period_child-Fine n.local l (record c { tokens = rest }) h
    period_token-Fine l c (_ ∷ rest) h = h

    pub parse_period-Returned :
        (c : At)
        → Clean c.world.1
        → Returned (parse_period common p fault (noting flush) meter business_type unit c)
    unfolding parse_period
    parse_period-Returned c h =
        loop-Returned (period_step common p fault (noting flush) meter business_type unit)
          (λ l c' k. period_token-Fine l c' c'.tokens k) (suc (length c.tokens)) new_period c h
