-- ===== src/Quarantine.antt =====
-- internal/consumption/quarantine/gcs.go: names and metadata of quarantined objects, and the upload.
pub mod Names
pub mod Collisions
pub mod Opening
use Prim.Native.String.{[], ◌∷◌, ◌++◌}
use experiment_go.Prelude.{
  ℕ, zero, suc, ◌/◌, ◌%◌, String, Char, code, Bool, ◌&&◌, ◌||◌, Option, none, some, List, ◌==◌, leb,
  ltb, eqb, if◌then◌else◌,
}
use experiment_go.Prelude.Text.{trim}
use experiment_go.Prelude.Text.Decimal.{digit_char}
use experiment_go.Prelude.Errors.{GoError, wrap_error, lit, str}
use experiment_go.Consumption.{Time, utc}

-- [A-Za-z0-9._-]
abbrev pub is_allowed : ℕ → Bool
is_allowed c =
    (leb b'a' c && leb c b'z')
    || (leb b'A' c && leb c b'Z')
    || (leb b'0' c && leb c b'9')
    || eqb c b'.'
    || eqb c b'_'
    || eqb c b'-'

-- 0x20 to 0x7E, and tab
abbrev pub is_printable : ℕ → Bool
is_printable c = (leb 0x20 c && leb c 0x7E) || eqb c 9

-- The loop of both sanitizers: a character that is not kept becomes an underscore.
unfoldable pub replace_others : (ℕ → Bool) → String → String
replace_others keep [] = []
replace_others keep (c ∷ s) = (if keep (code c) then c else "_") ∷ replace_others keep s

-- The cutset of strings.Trim(safe, "_.")
abbrev pub is_cut : ℕ → Bool
is_cut c = eqb c b'_' || eqb c b'.'

-- len(s) and s[:n] of an ASCII text
unfoldable pub text_length : String → ℕ
text_length [] = 0
text_length (c ∷ s) = suc (text_length s)

unfoldable pub take_text : ℕ → String → String
take_text zero s = []
take_text (suc n) [] = []
take_text (suc n) (c ∷ s) = c ∷ take_text n s

abbrev pub capped : String → String
capped s = if ltb 128 (text_length s) then take_text 128 s else s

abbrev pub or_unknown : String → String
or_unknown s = if s == "" then "unknown" else s

-- sanitizeID
unfoldable pub sanitize_id : String → String
unfolding replace_others trim text_length take_text
sanitize_id id = or_unknown (capped (trim is_cut (replace_others is_allowed id)))

-- sanitizeMetadata
unfoldable pub sanitize_metadata : String → String
unfolding replace_others
sanitize_metadata s = replace_others is_printable s

-- hex.EncodeToString
unfoldable pub hex_encode : List ℕ → String
hex_encode List.[] = []
hex_encode (List.◌∷◌ b bytes) = digit_char (b / 16) ∷ digit_char (b % 16) ∷ hex_encode bytes

-- What ObjectName takes from the standard library: the SHA-256 digest of a text, the date of an
-- instant ("2006/01/02"), and the time of day at a time's own location ("150405.000000000").
pub record Library : Type 0 where
  pub sha256 : String → List ℕ
  pub format_date : Time → String
  pub format_clock : Time → String

-- messageIDDigest
unfoldable pub message_id_digest : Library → String → String
unfolding hex_encode take_text
message_id_digest lib id = take_text 8 (hex_encode (lib.sha256 id))

-- ObjectName
unfoldable pub object_name : Library → Time → String → String
unfolding message_id_digest sanitize_id
object_name lib now id =
    lib.format_date (utc now)
    ++ "/"
    ++ lib.format_clock now
    ++ "-"
    ++ message_id_digest lib id
    ++ "-"
    ++ sanitize_id id
    ++ ".xml"

-- An object as it is written to the bucket.
pub record Upload : Type 0 where
  pub name : String
  pub content_type : String
  pub message_id : String
  pub reason : String
  pub payload : List ℕ

abbrev pub upload_error : String → Upload → GoError → GoError
upload_error doing u e = wrap_error (List.◌∷◌ (lit doing) (List.◌∷◌ (str u.name) List.[])) e

-- A bucket of Cloud Storage, a service: `write` takes the upload, and fails as the client's Write
-- does; `close` ends it, and fails as Close does.
pub record Bucket (W : Type 0) : Type 0 where
  pub write : Upload → W → Option GoError × W
  pub close : Upload → W → Option GoError × W

module _ {W : Type 0} (lib : Library) (bucket : Bucket W) where
  abbrev closed : Upload → Option GoError × W → Option GoError × W
  closed u (none, w) = (none, w)
  closed u (some e, w) = (some (upload_error "quarantine: closing " u e), w)

  -- After a write that failed the writer is closed, whatever comes of it.
  abbrev written : Upload → Option GoError × W → Option GoError × W
  written u (none, w) = closed u (bucket.close u w)
  written u (some e, w) = (some (upload_error "quarantine: writing " u e), (bucket.close u w).1)

  -- What Quarantine uploads, at the time that time.Now returns.
  abbrev pub upload_of : Time → String → List ℕ → String → Upload
  upload_of now id payload reason = record {
    name = object_name lib now id;
    content_type = "application/xml";
    message_id = sanitize_metadata id;
    reason = sanitize_metadata reason;
    payload = payload;
  }

  -- GCS.Quarantine
  unfoldable pub quarantine : Time → String → List ℕ → String → W → Option GoError × W
  unfolding object_name sanitize_metadata
  quarantine now id payload reason w =
      let u = upload_of now id payload reason in written u (bucket.write u w)
