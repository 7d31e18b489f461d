-- ===== src/Report/Text.antt =====
-- internal/report/transform.go: `stringValue` and `floatValue`. A byte is a number below 256. Package
-- regexp is an interface, and so is netip's text of an address.
pub mod Valid
use networkdevicereceiver.Base.{
  ℕ, zero, suc, ◌+◌, ◌/◌, ◌%◌, Bool, true, false, not, ◌&&◌, ◌||◌, ◌==◌, Option, none, some, List,
  [], ◌∷◌, ◌++◌, map, ltb, leb, if◌then◌else◌, length, get_elem?, Str, lit, str_eq, is_blank, join,
  ℤ, pos, Floats,
}
use networkdevicereceiver.Profile.Definition.{SymbolConfig}
use networkdevicereceiver.Profile.Compile.{Compiled, regexp}
use networkdevicereceiver.Snmp.Value.{ResultValue, string_of, bytes_of, float_of}

-- Compiled expressions: FindStringSubmatch, and ExpandString of a template at the match that
-- FindStringSubmatchIndex finds; `none` where nothing matches.
pub record Regexes : Type 1 where
  pub R : Type 0
  pub compile : Str → Option R
  pub submatch : R → Str → Option (List Str)
  pub expand : R → Str → Str → Option Str

-- netip.AddrFromSlice(raw).String(): `none` unless there are 4 or 16 octets.
pub record Addresses : Type 0 where
  pub print_octets : Str → Option Str

-- The bytes that must follow a first byte, each in its range; `none` for no first byte.
unfoldable pub follows : ℕ → Option (List (ℕ × ℕ))
follows c =
    if ltb c 128
    then some []
    else if ltb c 194
    then none
    else if ltb c 224
    then some ((128, 191) ∷ [])
    else if c == 224
    then some ((160, 191) ∷ (128, 191) ∷ [])
    else if c == 237
    then some ((128, 159) ∷ (128, 191) ∷ [])
    else if ltb c 240
    then some ((128, 191) ∷ (128, 191) ∷ [])
    else if c == 240
    then some ((144, 191) ∷ (128, 191) ∷ (128, 191) ∷ [])
    else if ltb c 244
    then some ((128, 191) ∷ (128, 191) ∷ (128, 191) ∷ [])
    else if c == 244
    then some ((128, 143) ∷ (128, 191) ∷ (128, 191) ∷ [])
    else none

-- utf8.ValidString, with the bytes that the current rune still needs
unfoldable pub valid_from : List (ℕ × ℕ) → Str → Bool
unfolding follows
valid_from [] [] = true
valid_from (r ∷ rs) [] = false
valid_from ((lo, hi) ∷ rs) (c ∷ s) = leb lo c && leb c hi && valid_from rs s
valid_from [] (c ∷ s) = elim (follows c) [ none ↦ false | some rs ↦ valid_from rs s ]

abbrev pub valid_string : Str → Bool
valid_string s = valid_from [] s

abbrev pub hex_digit : ℕ → ℕ
hex_digit n = if ltb n 10 then 48 + n else 87 + n

-- hex.EncodeToString
unfoldable pub hex : Str → Str
hex [] = []
hex (c ∷ s) = hex_digit (c / 16 % 16) ∷ hex_digit (c % 16) ∷ hex s

unfoldable pub sanitize_text : Str → Str
sanitize_text text = if valid_string text then text else hex text

-- The scan of `\$(\d+)`: in plain text, after a dollar sign, or among the digits of a reference.
pub data Scan : Type 0 where
  plain dollar digits : Scan

abbrev is_digit : ℕ → Bool
is_digit c = leb 48 c && leb c 57

pub expand_from : Scan → Str → Str
expand_from plain [] = []
expand_from dollar [] = b'$' ∷ []
expand_from digits [] = b'}' ∷ []
expand_from plain (c ∷ s) =
    let held = expand_from dollar s in
    let next = expand_from plain s in if c == b'$' then held else c ∷ next
expand_from dollar (c ∷ s) =
    let held = expand_from dollar s in
    let reference = expand_from digits s in
    let next = expand_from plain s in
    if is_digit c
    then b'$' ∷ b'{' ∷ c ∷ reference
    else if c == b'$'
    then b'$' ∷ held
    else b'$' ∷ c ∷ next
expand_from digits (c ∷ s) =
    let held = expand_from dollar s in
    let reference = expand_from digits s in
    let next = expand_from plain s in
    if is_digit c then c ∷ reference else if c == b'$' then b'}' ∷ held else b'}' ∷ c ∷ next

unfoldable pub expand_template : Str → Str
unfolding expand_from
expand_template template = expand_from plain template

unfoldable pub format_mac : Str → Str
format_mac raw = join b':' (map (λ c. hex_digit (c / 16 % 16) ∷ hex_digit (c % 16) ∷ []) raw)

-- The errors of `stringValue`; a regex is named by its pattern.
pub data TextError : Type 0 where
  unsupported_format : Str → TextError
  bad_ip_address : ℕ → TextError
  not_compiled no_match : Str → TextError

pub data Texted : Type 0 where
  shaped : Str → Texted
  failed : TextError → Texted

abbrev mac_of : Str → Option Str → Texted
unfolding format_mac
mac_of text none = shaped text
mac_of text (some raw) = shaped (format_mac raw)

abbrev ip_text : Str → Option Str → Texted
ip_text raw none = failed (bad_ip_address (length raw))
ip_text raw (some s) = shaped s

abbrev ip_of : Addresses → Str → Option Str → Texted
ip_of ad text none = shaped text
ip_of ad text (some raw) = ip_text raw (ad.print_octets raw)

infixl 5 ◌>>=◌
abbrev pub ◌>>=◌ : Texted → (Str → Texted) → Texted
shaped s >>= f = f s
failed e >>= f = failed e

module _ {fl : Floats} (ad : Addresses) where
  unfoldable pub apply_format : Str → ResultValue fl → Texted
  unfolding format_mac
  apply_format format v =
      if str_eq format (lit "mac_address")
      then mac_of (string_of fl v.value) (bytes_of fl v.value)
      else if str_eq format (lit "ip_address")
      then ip_of ad (string_of fl v.value) (bytes_of fl v.value)
      else failed (unsupported_format format)

  abbrev pub formatted : SymbolConfig fl → ResultValue fl → Texted
  formatted sym v =
      if is_blank sym.format then shaped (string_of fl v.value) else apply_format sym.format v

module _ (re : Regexes) where
  -- match[1] of a match with at least one group
  abbrev first_group : Str → Option (List Str) → Texted
  first_group pattern (some (whole ∷ group ∷ groups)) = shaped group
  first_group pattern _ = failed (no_match pattern)

  abbrev extract : Str → Str → Option re.R → Texted
  extract pattern text none = failed (not_compiled pattern)
  extract pattern text (some r) = first_group pattern (re.submatch r text)

  abbrev expansion : Str → Option Str → Texted
  expansion pattern none = failed (no_match pattern)
  expansion pattern (some s) = shaped s

  abbrev rewrite : Str → Str → Str → Option re.R → Texted
  rewrite pattern template text none = failed (not_compiled pattern)
  rewrite pattern template text (some r) =
      expansion pattern (re.expand r (expand_template template) text)

module _ {fl : Floats} (ad : Addresses) (re : Regexes) where
  abbrev pub extracted : Compiled fl re.R → SymbolConfig fl → Str → Texted
  extracted c sym text =
      if is_blank sym.extract_value
      then shaped text
      else extract re sym.extract_value text (regexp c sym.extract_value)

  abbrev pub rewritten : Compiled fl re.R → SymbolConfig fl → Str → Texted
  rewritten c sym text =
      if is_blank sym.match_pattern
      then shaped text
      else rewrite re sym.match_pattern sym.match_value text (regexp c sym.match_pattern)

  unfoldable pub string_value : Compiled fl re.R → SymbolConfig fl → ResultValue fl → Texted
  unfolding sanitize_text
  string_value c sym v =
      formatted ad sym v
      >>= extracted c sym
      >>= rewritten c sym
      >>= (λ text. shaped (sanitize_text text))

-- `stringValueNoCompile`: an error comes with no text that is used.
unfoldable pub string_value_no_compile :
    {fl : Floats} → Addresses → SymbolConfig fl → ResultValue fl → Texted
unfolding sanitize_text
string_value_no_compile ad sym v = formatted ad sym v >>= λ text. shaped (sanitize_text text)

module _ (fl : Floats) where
  abbrev zero_float : fl.F
  zero_float = fl.of_int (pos 0)

  abbrev one_float : fl.F
  one_float = fl.of_int (pos 1)

  abbrev pub scaled : fl.F → fl.F → fl.F
  scaled scale f = if fl.same scale zero_float then f else fl.times f scale

  -- the registry's scale, `none` for Go's zero
  abbrev pub unit_scaled : Option fl.F → fl.F → fl.F
  unit_scaled none f = f
  unit_scaled (some scale) f =
      if fl.same scale zero_float || fl.same scale one_float then f else fl.times f scale

  abbrev scale_both : fl.F → Option fl.F → Option fl.F → Option fl.F
  scale_both symbol_scale unit none = none
  scale_both symbol_scale unit (some f) = some (unit_scaled unit (scaled symbol_scale f))

  unfoldable pub float_value : SymbolConfig fl → ResultValue fl → Option fl.F → Option fl.F
  float_value sym v unit =
      if sym.constant_value_one
      then some one_float
      else scale_both sym.scale_factor unit (float_of fl v.value)
