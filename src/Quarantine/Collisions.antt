-- ===== src/Quarantine/Collisions.antt =====
-- Which message ids share an object name.
use Prim.Native.String.{◌∷◌, ◌++◌}
use experiment_go.Prelude.{
  ℕ, zero, suc, ◌-◌, ◌/◌, ◌%◌, ◌<◌, ◌≡◌, ◌↔◌, refl, ap, String, code, List, arith, All, ltb,
  if◌then◌else◌, length, take,
}
use text.Mathlib.TextLemmas.{
  head-eq_of_cons-eq, tail-eq_of_cons-eq, cons-append, append_cancel_left, append_cancel_right,
}
use experiment_go.Prelude.Text.Decimal.{digit_char}
use experiment_go.Consumption.{Time, utc}
use experiment_go.Quarantine.{
  Library, hex_encode, take_text, message_id_digest, sanitize_id, object_name,
}

abbrev pub IsByte : ℕ → Type 0
IsByte b = b < 256

-- A digest of 32 bytes.
abbrev pub IsDigest : List ℕ → Type 0
IsDigest h = (length h ≡ 32) × All IsByte h

-- The value of a hexadecimal digit.
abbrev digit_value : ℕ → ℕ
digit_value c = if ltb c 58 then c - 48 else c - 87

digit_value-digit_char : (d : ℕ) → d < 16 → digit_value (code (digit_char d)) ≡ d
digit_value-digit_char zero h = refl
digit_value-digit_char (suc zero) h = refl
digit_value-digit_char (suc (suc zero)) h = refl
digit_value-digit_char (suc (suc (suc zero))) h = refl
digit_value-digit_char (suc (suc (suc (suc zero)))) h = refl
digit_value-digit_char (suc (suc (suc (suc (suc zero))))) h = refl
digit_value-digit_char (suc (suc (suc (suc (suc (suc zero)))))) h = refl
digit_value-digit_char (suc (suc (suc (suc (suc (suc (suc zero))))))) h = refl
digit_value-digit_char (suc (suc (suc (suc (suc (suc (suc (suc zero)))))))) h = refl
digit_value-digit_char (suc (suc (suc (suc (suc (suc (suc (suc (suc zero))))))))) h = refl
digit_value-digit_char (suc (suc (suc (suc (suc (suc (suc (suc (suc (suc zero)))))))))) h = refl
digit_value-digit_char (suc (suc (suc (suc (suc (suc (suc (suc (suc (suc (suc zero))))))))))) h =
    refl
digit_value-digit_char (suc (suc (suc (suc (suc (suc (suc (suc (suc (suc (suc (suc zero))))))))))))
      h =
    refl
digit_value-digit_char
      (suc (suc (suc (suc (suc (suc (suc (suc (suc (suc (suc (suc (suc zero))))))))))))) h =
    refl
digit_value-digit_char
      (suc (suc (suc (suc (suc (suc (suc (suc (suc (suc (suc (suc (suc (suc zero)))))))))))))) h =
    refl
digit_value-digit_char
      (suc (suc (suc (suc (suc (suc (suc (suc (suc (suc (suc (suc (suc (suc (suc zero)))))))))))))))
      h =
    refl
digit_value-digit_char
      (suc
        (suc (suc (suc (suc (suc (suc (suc (suc (suc (suc (suc (suc (suc (suc (suc d))))))))))))))))
      h =
    absurd (omega arith)

digit_char_inj : (d e : ℕ) → d < 16 → e < 16 → digit_char d ≡ digit_char e → d ≡ e
digit_char_inj d e h k same =
    let d_value : digit_value (code (digit_char d)) ≡ d = digit_value-digit_char d h in
    let e_value : digit_value (code (digit_char e)) ≡ e = digit_value-digit_char e k in
    let values : digit_value (code (digit_char d)) ≡ digit_value (code (digit_char e)) =
      ap (λ c. digit_value (code c)) same in
    cc (d_value, e_value, values)

-- The two digits of a byte, in front of other texts.
byte_inj :
    (a b : ℕ) (u v s t : String)
    → IsByte a
    → IsByte b
    → (digit_char (a / 16) ∷ digit_char (a % 16) ∷ u) ++ s
      ≡ (digit_char (b / 16) ∷ digit_char (b % 16) ∷ v) ++ t
    → (a ≡ b) × (u ++ s ≡ v ++ t)
byte_inj a b u v s t h k same =
    let split : Path String (digit_char (a / 16) ∷ digit_char (a % 16) ∷ (u ++ s))
        (digit_char (b / 16) ∷ digit_char (b % 16) ∷ (v ++ t)) =
      simp cons-append at same in
    let high : a / 16 ≡ b / 16 =
      digit_char_inj (a / 16) (b / 16) (omega (arith, h)) (omega (arith, k))
        (head-eq_of_cons-eq split) in
    let low : a % 16 ≡ b % 16 =
      digit_char_inj (a % 16) (b % 16) (omega arith) (omega arith)
        (head-eq_of_cons-eq (tail-eq_of_cons-eq split)) in
    (omega (arith, high, low), tail-eq_of_cons-eq (tail-eq_of_cons-eq split))

-- Eight digits are four bytes.
digits_inj :
    (g h : List ℕ) (s t : String)
    → IsDigest g
    → IsDigest h
    → take_text 8 (hex_encode g) ++ s ≡ take_text 8 (hex_encode h) ++ t
    → (take 4 g ≡ take 4 h) × (s ≡ t)
unfolding take_text hex_encode
digits_inj (List.◌∷◌ a (List.◌∷◌ b (List.◌∷◌ c (List.◌∷◌ d rest))))
      (List.◌∷◌ a' (List.◌∷◌ b' (List.◌∷◌ c' (List.◌∷◌ d' rest')))) s t v w same =
    let first =
      byte_inj a a' (take_text 6 (hex_encode (List.◌∷◌ b (List.◌∷◌ c (List.◌∷◌ d rest)))))
        (take_text 6 (hex_encode (List.◌∷◌ b' (List.◌∷◌ c' (List.◌∷◌ d' rest'))))) s t v.1.0 w.1.0
        same in
    let second =
      byte_inj b b' (take_text 4 (hex_encode (List.◌∷◌ c (List.◌∷◌ d rest))))
        (take_text 4 (hex_encode (List.◌∷◌ c' (List.◌∷◌ d' rest')))) s t v.1.1.0 w.1.1.0 first.1 in
    let third =
      byte_inj c c' (take_text 2 (hex_encode (List.◌∷◌ d rest)))
        (take_text 2 (hex_encode (List.◌∷◌ d' rest'))) s t v.1.1.1.0 w.1.1.1.0 second.1 in
    let fourth =
      byte_inj d d' (take_text 0 (hex_encode rest)) (take_text 0 (hex_encode rest')) s t v.1.1.1.1.0
        w.1.1.1.1.0 third.1 in
    (rw (first.0, second.0, third.0, fourth.0) refl, append_cancel_left "" s t fourth.1)
digits_inj _ _ s t v w same = absurd (omega arith)

digits_of_take :
    (g h : List ℕ)
    → IsDigest g
    → IsDigest h
    → take 4 g ≡ take 4 h
    → take_text 8 (hex_encode g) ≡ take_text 8 (hex_encode h)
unfolding take_text hex_encode
digits_of_take (List.◌∷◌ a (List.◌∷◌ b (List.◌∷◌ c (List.◌∷◌ d rest))))
      (List.◌∷◌ a' (List.◌∷◌ b' (List.◌∷◌ c' (List.◌∷◌ d' rest')))) v w same =
    let first : a ≡ a' = cc same in
    let second : b ≡ b' = cc same in
    let third : c ≡ c' = cc same in
    let fourth : d ≡ d' = cc same in rw (first, second, third, fourth) refl
digits_of_take _ _ v w same = absurd (omega arith)

module _ (lib : Library) (now : Time) (a b : String) where
  -- Whatever digest function of 32 bytes is used, two message ids have the same object name at the same
  -- time exactly if the first four bytes of their digests agree and their sanitised forms agree: the
  -- name tells apart ids with one sanitised form, but by 32 bits of the digest only.
  pub object_name-eq_iff :
      IsDigest (lib.sha256 a)
      → IsDigest (lib.sha256 b)
      → (object_name lib now a ≡ object_name lib now b)
        ↔ ((take 4 (lib.sha256 a) ≡ take 4 (lib.sha256 b)) × (sanitize_id a ≡ sanitize_id b))
  unfolding object_name message_id_digest
  object_name-eq_iff v w = (
    λ same.
        let behind_date =
          append_cancel_left "/" _ _ (append_cancel_left (lib.format_date (utc now)) _ _ same) in
        let behind_clock =
          append_cancel_left "-" _ _ (append_cancel_left (lib.format_clock now) _ _ behind_date) in
        let (bytes, names) =
          digits_inj (lib.sha256 a) (lib.sha256 b) ("-" ++ sanitize_id a ++ ".xml")
            ("-" ++ sanitize_id b ++ ".xml") v w behind_clock in
        (
          bytes,
          append_cancel_right (sanitize_id a) (sanitize_id b) ".xml"
              (append_cancel_left "-" _ _ names),
        ),
    λ h. rw (digits_of_take (lib.sha256 a) (lib.sha256 b) v w h.0, h.1) refl,
  )
