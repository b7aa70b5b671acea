-- ===== src/XmlFmt/Esmp/GatherPeriod.antt =====
-- parsePeriod, batched and unbatched.
use experiment_go.Prelude.{
  ◌≡◌, refl, suc, String, true, ◌||◌, Option, none, some, List, [], ◌∷◌, ◌==◌, length, ap,
}
use experiment_go.Prelude.Int.{ℤ}
use experiment_go.Prelude.Errors.{GoError, Result, ok, err, lit, str}
use experiment_go.Consumption.{Time, Reading}
use experiment_go.Consumption.Xml.{Token, Fault}
use experiment_go.XmlFmt.Decode.{Read, decode_text, decode_struct}
use experiment_go.XmlFmt.Loop.{Cursor}
use experiment_go.XmlFmt.Esmp.{Common, Esmp, Point, set_point, no_point, Period, new_period}
use experiment_go.XmlFmt.Esmp.Rounds.{
  go_on, append_point, set_start, read_interval, set_resolution, read_resolution, read_point,
  point_context, on_point, period_child, period_token, period_step, parse_period,
}
use experiment_go.XmlFmt.Esmp.Gather.{
  to_log, to_batch, gather, gather_return, gather_step, if_map, go_on-gather, skip_child-gather,
  loop-gather, append_point-gather,
}
use experiment_go.Prelude.{◌∙◌}

module _ (common : Common) (fault : Fault) (p q : Esmp) (meter business_type unit : String) where
  set_start-gather :
      (l : Period) (c : Cursor (List Reading)) (text : String) (t : Result Time)
      → gather_step (set_start common p fault to_log meter business_type unit l c text t)
        ≡ set_start common q fault to_batch meter business_type unit l (gather c) text t
  set_start-gather l c text (err e) = refl
  set_start-gather l c text (ok t) = refl

  read_interval-gather :
      (l : Period) (c : Cursor (List Reading)) (r : Read String)
      → gather_step (read_interval common p fault to_log meter business_type unit l c r)
        ≡ read_interval common q fault to_batch meter business_type unit l (gather c) r
  read_interval-gather l c (err e, rest) = refl
  read_interval-gather l c (ok text, rest) =
      set_start-gather l (record c { tokens = rest }) text
        (common.parse_rfc3339 (common.normalise_instant text))

  set_resolution-gather :
      (l : Period) (c : Cursor (List Reading)) (r : Result ℤ)
      → gather_step (set_resolution common p fault to_log meter business_type unit l c r)
        ≡ set_resolution common q fault to_batch meter business_type unit l (gather c) r
  set_resolution-gather l c (err e) = refl
  set_resolution-gather l c (ok n) = refl

  read_resolution-gather :
      (l : Period) (c : Cursor (List Reading)) (r : Read String)
      → gather_step (read_resolution common p fault to_log meter business_type unit l c r)
        ≡ read_resolution common q fault to_batch meter business_type unit l (gather c) r
  read_resolution-gather l c (err e, rest) = refl
  read_resolution-gather l c (ok raw, rest) =
      set_resolution-gather l (record c { tokens = rest }) (common.parse_resolution raw)

  read_point-gather :
      (l : Period) (c : Cursor (List Reading)) (r : Read Point)
      → gather_step (read_point common p fault to_log meter business_type unit l c r)
        ≡ read_point common q fault to_batch meter business_type unit l (gather c) r
  read_point-gather l c (err e, rest) = refl
  read_point-gather l c (ok point, rest) =
      let c' = record c { tokens = rest } in
      go_on-gather l (
        append_point common p fault to_log meter business_type unit l.start_time l.resolution point
          c')
      ∙ ap (go_on l) (
          append_point-gather common fault p q meter business_type unit l.start_time l.resolution
            point c')

  on_point-gather :
      (l : Period) (c : Cursor (List Reading)) (e : Option GoError)
      → gather_step (on_point common p fault to_log meter business_type unit l c e)
        ≡ on_point common q fault to_batch meter business_type unit l (gather c) e
  on_point-gather l c (some e) = refl
  on_point-gather l c none =
      read_point-gather (record l { point_seen = true }) c
        (decode_struct fault (set_point common.parse_float) no_point c.tokens)

  period_child-gather :
      (name : String) (l : Period) (c : Cursor (List Reading))
      → gather_step (period_child common p fault to_log meter business_type unit name l c)
        ≡ period_child common q fault to_batch meter business_type unit name l (gather c)
  unfolding period_child
  period_child-gather name l c =
      if_map gather_step (name == "timeInterval" || name == "resolution")
        (if_map gather_step l.point_seen refl (
          if_map gather_step (name == "timeInterval")
            (read_interval-gather l c (common.decode_interval fault c.tokens))
            (read_resolution-gather l c (decode_text fault 0 "" c.tokens))))
        (if_map gather_step (name == "Point")
          (on_point-gather l c (point_context common p fault to_log meter business_type unit l))
          (skip_child-gather fault (lit "skipping Period child " ∷ str name ∷ []) l c))

  period_token-gather :
      (l : Period) (c : Cursor (List Reading)) (tokens : List Token)
      → gather_step (period_token common p fault to_log meter business_type unit l c tokens)
        ≡ period_token common q fault to_batch meter business_type unit l (gather c) tokens
  unfolding period_token
  period_token-gather l c [] = refl
  period_token-gather l c (Token.end_element n ∷ rest) =
      if_map gather_step (n.local == "Period") refl refl
  period_token-gather l c (Token.start_element n ∷ rest) =
      period_child-gather n.local l (record c { tokens = rest })
  period_token-gather l c (_ ∷ rest) = refl

  pub parse_period-gather :
      (c : Cursor (List Reading))
      → gather_return (parse_period common p fault to_log meter business_type unit c)
        ≡ parse_period common q fault to_batch meter business_type unit (gather c)
  unfolding parse_period
  parse_period-gather c =
      loop-gather (period_step common p fault to_log meter business_type unit)
        (period_step common q fault to_batch meter business_type unit)
        (λ l c'. period_token-gather l c' c'.tokens) (suc (length c.tokens)) new_period c
