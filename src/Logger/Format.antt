-- ===== src/Logger/Format.antt =====
-- The handler of a configuration that `validate` accepts.
use experiment_go.Prelude.{
  ◌≡◌, refl, ◌⊎◌, inl, inr, ◌&&◌, not, String, Bool, true, false, none, eqb, leb, arith, code,
}
use Prim.Native.String.{[], ◌∷◌}
use experiment_go.Prelude.Text.{lower, lower_is, equal_fold}
use experiment_go.Config.{Config, validate}
use experiment_go.Config.Validity.{validate_settings_iff}
use experiment_go.Logger.{text_handler, json_handler, new_logger}

-- Letters that are lower case and not among the two that letters outside ASCII are lowered to.
abbrev is_steady : String → Bool
is_steady [] = true
is_steady (c ∷ s) =
    leb b'a' (code c)
    && leb (code c) b'z'
    && not (eqb (code c) b'i')
    && not (eqb (code c) b'k')
    && is_steady s

equal_fold-lower_is :
    (s word : String) → is_steady word ≡ true → equal_fold s word ≡ lower_is s word
unfolding equal_fold lower_is lower
equal_fold-lower_is [] [] h = refl
equal_fold-lower_is [] (d ∷ t) h = refl
equal_fold-lower_is (c ∷ s) [] h = refl
equal_fold-lower_is (c ∷ s) (d ∷ t) h = let rest = equal_fold-lower_is s t in ground arith

-- A text that lowers to json does not fold to text.
json-text : (s : String) → lower_is s "json" ≡ true → equal_fold s "text" ≡ false
unfolding lower_is equal_fold lower
json-text [] h = refl
json-text (c ∷ s) h = ground arith

-- The configured format decides the handler of every configuration that is accepted: text, in any
-- case of letters, gives the text handler, and json the JSON handler, although `validate` lowers the
-- format and New folds it. No accepted format falls through to a default.
pub new_logger-format :
    (c : Config)
    → validate c ≡ none
    → ((lower_is c.logger.format "text" ≡ true)
        × ((new_logger c.logger.level c.logger.format).0 ≡ text_handler))
      ⊎ ((lower_is c.logger.format "json" ≡ true)
          × ((new_logger c.logger.level c.logger.format).0 ≡ json_handler))
unfolding new_logger
new_logger-format c h = elim ((validate_settings_iff c).0 h).format [
  | inl json ↦ inr (json, rw (json-text c.logger.format json) refl)
  | inr text ↦ inl (text, rw (equal_fold-lower_is c.logger.format "text" refl, text) refl)
]
