-- ===== src/Report/Text/Valid.antt =====
-- internal/report/transform.go: the texts that reach a metric.
use networkdevicereceiver.Base.{
  ℕ, ◌/◌, ◌%◌, ◌<◌, ◌≡◌, refl, ◌∙◌, Bool-cases, inl, inr, true, [], ◌∷◌, arith, ltb, Str, Floats,
}
use networkdevicereceiver.Profile.Definition.{SymbolConfig}
use networkdevicereceiver.Profile.Compile.{Compiled}
use networkdevicereceiver.Snmp.Value.{ResultValue}
use networkdevicereceiver.Report.Text.{
  Regexes, Addresses, follows, valid_from, valid_string, hex_digit, hex, sanitize_text, Texted,
  shaped, failed, ◌>>=◌, formatted, extracted, rewritten, string_value, string_value_no_compile,
}

digit-ascii : (n : ℕ) → n < 16 → ltb (hex_digit n) 128 ≡ true
digit-ascii n h = ground arith

valid-ascii : (c : ℕ) (s : Str) → ltb c 128 ≡ true → valid_from [] (c ∷ s) ≡ valid_from [] s
unfolding valid_from follows
valid-ascii c s h = rw (h, valid_from, follows)

hex-valid : (s : Str) → valid_string (hex s) ≡ true
unfolding hex
hex-valid [] = unfold valid_from in refl
hex-valid (c ∷ s) =
    valid-ascii (hex_digit (c / 16 % 16)) _ (digit-ascii (c / 16 % 16) (omega arith))
    ∙ valid-ascii (hex_digit (c % 16)) _ (digit-ascii (c % 16) (omega arith))
    ∙ hex-valid s

sanitize_text-valid : (s : Str) → valid_string (sanitize_text s) ≡ true
unfolding sanitize_text
sanitize_text-valid s = elim (Bool-cases (valid_string s)) [
  | inl b ↦ rw b b
  | inr b ↦ rw b (hex-valid s)
]

abbrev pub IsText : Texted → Type 0
IsText (shaped s) = valid_string s ≡ true
IsText (failed e) = Unit

sanitized : (t : Texted) → IsText (t >>= λ s. shaped (sanitize_text s))
sanitized (shaped s) = sanitize_text-valid s
sanitized (failed e) = tt

-- Whatever bytes a device answers and whatever the profile's expressions make of them, the text of a
-- symbol is valid UTF-8, if there is one, with or without its expressions.
pub string_value-IsText :
    {fl : Floats} (ad : Addresses) (re : Regexes) (c : Compiled fl re.R) (sym : SymbolConfig fl)
    (v : ResultValue fl)
    → IsText (string_value ad re c sym v) × IsText (string_value_no_compile ad sym v)
unfolding string_value string_value_no_compile
string_value-IsText ad re c sym v = (
  sanitized (formatted ad sym v >>= extracted ad re c sym >>= rewritten ad re c sym),
  sanitized (formatted ad sym v),
)
