-- ===== src/XmlFmt/Esmp/Document/Points.antt =====
-- The fields of a Point, read back.
use experiment_go.Prelude.{◌≡◌, refl, ap, ◌∙◌, String, Option, none, some, List, [], ◌∷◌}
use text.Mathlib.TextLemmas.{nil-append}
use experiment_go.Prelude.Errors.{ok}
use experiment_go.Consumption.Xml.{Token, Fault}
use experiment_go.XmlFmt.Decode.{prepend, decode_text, decode_struct, children, set_fields}
use experiment_go.XmlFmt.Esmp.{Common, Point, set_point, no_point}
use experiment_go.XmlFmt.Esmp.Document.{
  Layout, PointText, PeriodText, point_fields, point_of, IsPoint, scalar, optional, indented,
  end_tag, stated,
}

-- The fields of a Point as they are read.
abbrev quality_field : Option String → List (String × String)
quality_field none = []
quality_field (some quality) = ("quality", quality) ∷ []

module _ (layout : Layout) (fault : Fault) where
  -- What stands between the tags of a scalar child.
  pub decode_text-scalar :
      (name text : String) (rest : List Token)
      → decode_text fault 0 "" (Token.char_data text ∷ end_tag layout name rest) ≡ (ok text, rest)
  unfolding decode_text
  decode_text-scalar name text rest = ap (λ t. (ok t, rest)) (nil-append text)

  pub children-scalar :
      (name text : String) (rest : List Token)
      → children fault none (scalar layout name text rest)
        ≡ prepend (name, text) (children fault none rest)
  unfolding children
  children-scalar name text rest =
      ap (λ t. prepend (name, t) (children fault none rest)) (nil-append text)

  pub children-end :
      (name : String) (rest : List Token)
      → children fault none (indented layout (end_tag layout name rest)) ≡ ([], (none, rest))
  unfolding children
  children-end name rest = refl

  children-optional :
      (text : Option String) (rest : List Token)
      → children fault none
          (optional layout "quality" text (indented layout (end_tag layout "Point" rest)))
        ≡ (quality_field text, (none, rest))
  children-optional none rest = children-end "Point" rest
  children-optional (some text) rest =
      children-scalar "quality" text (indented layout (end_tag layout "Point" rest))
      ∙ ap (prepend ("quality", text)) (children-end "Point" rest)

  children-point :
      (pt : PointText) (rest : List Token)
      → children fault none (point_fields layout pt rest) ≡ (
        ("position", pt.position_text)
            ∷ ("quantity", pt.quantity_text)
            ∷ quality_field pt.quality_text,
        (none, rest),
      )
  children-point pt rest =
      let tail =
        optional layout "quality" pt.quality_text (indented layout (end_tag layout "Point" rest)) in
      children-scalar "position" pt.position_text (scalar layout "quantity" pt.quantity_text tail)
      ∙ ap (prepend ("position", pt.position_text)) (
          children-scalar "quantity" pt.quantity_text tail
          ∙ ap (prepend ("quantity", pt.quantity_text)) (children-optional pt.quality_text rest))

  module _ (common : Common) where
    set_fields-quality :
        (quality : Option String) (p : Point)
        → p.quality ≡ ""
        → set_fields (set_point common.parse_float) (quality_field quality) p
          ≡ ok (record p { quality = stated quality })
    unfolding set_fields set_point
    set_fields-quality none p h = ap (λ q. ok (record p { quality = q })) h
    set_fields-quality (some quality) p h = refl

    set_fields-point :
        (pd : PeriodText) (pt : PointText)
        → IsPoint common fault pd pt
        → set_fields
            (set_point common.parse_float)
            (("position", pt.position_text)
              ∷ ("quantity", pt.quantity_text)
              ∷ quality_field pt.quality_text)
            no_point
          ≡ ok (point_of pt)
    unfolding set_fields set_point
    set_fields-point pd pt h =
        rw (h.position, h.quantity)
          (set_fields-quality pt.quality_text (record (point_of pt) { quality = "" }) refl)

    pub decode_struct-point :
        (pd : PeriodText) (pt : PointText) (rest : List Token)
        → IsPoint common fault pd pt
        → decode_struct fault (set_point common.parse_float) no_point (point_fields layout pt rest)
          ≡ (ok (point_of pt), rest)
    decode_struct-point pd pt rest h = rw (children-point pt rest, set_fields-point pd pt h) refl
