-- ===== src/XmlFmt/Esmp/Document/Scalars.antt =====
-- The children of a TimeSeries before its periods, read back.
use experiment_go.Prelude.{
  ℕ, ◌≤◌, ◌≡◌, refl, ap, ◌∙◌, String, Option, none, some, List, ◌∷◌, length,
}
use experiment_go.Prelude.Errors.{GoError, ok}
use experiment_go.Consumption.{Reading}
use experiment_go.Consumption.Xml.{Token, Fault}
use experiment_go.XmlFmt.Decode.{decode_struct, prepend, set_fields}
use experiment_go.XmlFmt.Loop.{Cursor, again}
use experiment_go.XmlFmt.Esmp.{Common, Esmp, Series, new_series, set_mrid}
use experiment_go.XmlFmt.Esmp.SeriesRounds.{scalar_child, series_child, series_token}
use experiment_go.XmlFmt.Esmp.Document.{
  Layout, SeriesText, evaluation_tokens, scalar, start_tag, end_tag, indented, stated,
}
use experiment_go.XmlFmt.Esmp.Document.Returns.{Returns, Returns-again}
use experiment_go.XmlFmt.Esmp.Document.Points.{decode_text-scalar, children-scalar, children-end}
use experiment_go.XmlFmt.Esmp.Document.Rows.{at_tokens}
use experiment_go.XmlFmt.Esmp.Document.Series.{step, indented-Returns}

module _ (layout : Layout) (common : Common) (p : Esmp) (fault : Fault)
    (reads : (tokens : List Token) → length (common.decode_interval fault tokens).1 ≤ length tokens)
    (s : SeriesText) where
  -- The child is in its local variable, and the loop goes on behind it.
  abbrev pub Stores : (name text : String) → Series → Series → Type 0
  Stores name text l l' =
      (tokens : List Token) (batch : List Reading) (total : ℕ)
      → step layout common p fault reads s l (
          at_tokens (start_tag layout name (Token.char_data text ∷ end_tag layout name tokens))
            batch total)
        ≡ again l' (at_tokens tokens batch total)

  abbrev pub named : Series
  named = record new_series { mrid = s.mrid }

  abbrev pub typed : Series
  typed = record named { business_type = s.business_type }

  abbrev pub measured : Series
  measured = record typed { unit = s.unit }

  pub mrid_round : Stores "mRID" s.mrid new_series named
  unfolding series_token series_child scalar_child
  mrid_round tokens batch total = rw (decode_text-scalar layout fault "mRID" s.mrid tokens) refl

  pub business_type_round : Stores "businessType" s.business_type named typed
  unfolding series_token series_child scalar_child
  business_type_round tokens batch total =
      rw (decode_text-scalar layout fault "businessType" s.business_type tokens) refl

  pub unit_round : Stores "quantity_Measure_Unit.name" s.unit typed measured
  unfolding series_token series_child scalar_child
  unit_round tokens batch total =
      rw (decode_text-scalar layout fault "quantity_Measure_Unit.name" s.unit tokens) refl

  -- A scalar child and the white space before it.
  pub scalar-Returns :
      (name text : String) (l l' : Series)
      → Stores name text l l'
      → (tokens : List Token) (batch : List Reading) (total : ℕ)
      → (r : Option GoError × Cursor (Unit {0}))
      → Returns (step layout common p fault reads s) l' (at_tokens tokens batch total) r
      → Returns
          (step layout common p fault reads s)
          l
          (at_tokens (scalar layout name text tokens) batch total)
          r
  scalar-Returns name text l l' stores tokens batch total r k =
      let child = start_tag layout name (Token.char_data text ∷ end_tag layout name tokens) in
      indented-Returns layout common p fault reads s l child batch total r (
        Returns-again (step layout common p fault reads s) l (at_tokens child batch total) l'
          (at_tokens tokens batch total) r (stores tokens batch total) k)

  decode_struct-mrid :
      (text : String) (tokens : List Token)
      → decode_struct fault set_mrid "" (
          scalar layout "mRID" text
            (indented layout (end_tag layout "MarketEvaluationPoint" tokens)))
        ≡ (ok text, tokens)
  unfolding set_fields set_mrid
  decode_struct-mrid text tokens =
      let behind = indented layout (end_tag layout "MarketEvaluationPoint" tokens) in
      rw
        (children-scalar layout fault "mRID" text behind
          ∙ ap (prepend ("mRID", text)) (children-end layout fault "MarketEvaluationPoint" tokens))
        refl

  -- The local variables behind the evaluation point.
  abbrev pub located : Option String → Series
  located point = record measured { meter = stated point }

  pub evaluation-Returns :
      (point : Option String) (tokens : List Token) (batch : List Reading) (total : ℕ)
      (r : Option GoError × Cursor (Unit {0}))
      → Returns
          (step layout common p fault reads s)
          (located point)
          (at_tokens tokens batch total)
          r
      → Returns
          (step layout common p fault reads s)
          measured
          (at_tokens (evaluation_tokens layout point tokens) batch total)
          r
  unfolding series_token series_child scalar_child
  evaluation-Returns none tokens batch total r k = k
  evaluation-Returns (some text) tokens batch total r k =
      let child = start_tag layout "MarketEvaluationPoint" (
        scalar layout "mRID" text
          (indented layout (end_tag layout "MarketEvaluationPoint" tokens))) in
      indented-Returns layout common p fault reads s measured child batch total r (
        Returns-again (step layout common p fault reads s) measured (at_tokens child batch total)
          (located (some text)) (at_tokens tokens batch total) r
          (rw (decode_struct-mrid text tokens) refl) k)
