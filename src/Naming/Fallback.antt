-- ===== src/Naming/Fallback.antt =====
-- internal/naming/fallback.go: generated metric names. Runes and their classes are those of `Letters`.
pub mod Charset
use networkdevicereceiver.Base.{
  ℕ, Bool, false, ◌&&◌, ◌||◌, ◌==◌, Option, none, some, List, [], ◌∷◌, ◌++◌, map, if◌then◌else◌,
  Str, lit, is_blank, trim_suffix, trim_space, trim_left, split, join, Letters,
}

abbrev pub is_underscore : ℕ → Bool
is_underscore c = c == b'_'

pub reverse_onto : Str → Str → Str
reverse_onto acc [] = acc
reverse_onto acc (c ∷ s) = reverse_onto (c ∷ acc) s

-- strings.Trim(s, "_")
unfoldable pub trim_underscores : Str → Str
unfolding reverse_onto
trim_underscores s =
    reverse_onto [] (trim_left is_underscore (reverse_onto [] (trim_left is_underscore s)))

abbrev pub underscored : Str → Str
underscored s = map (λ c. if c == b'-' then b'_' else c) s

abbrev pub some_part : Str → List Str
some_part s = if is_blank s then [] else s ∷ []

module _ (u : Letters) where
  -- What may stand in a metric's name.
  abbrev pub is_name_rune : ℕ → Bool
  is_name_rune r =
      u.is_letter r || u.is_digit r || (r == b'_') || (r == b'.') || (r == b'-') || (r == b'/')

  abbrev pub clean : ℕ → ℕ
  clean r = if is_name_rune r then r else b'_'

  unfoldable pub sanitize : Str → Str
  unfolding trim_underscores
  sanitize s = trim_underscores (u.text (map clean (u.runes s)))

  abbrev next_is_lower : List ℕ → Bool
  next_is_lower [] = false
  next_is_lower (r ∷ rs) = u.is_lower r

  -- An upper-case letter begins a word after a lower-case letter or a digit, and at the end of a run
  -- of upper-case letters.
  pub begins_word : Option ℕ → List ℕ → Bool
  begins_word none rs = false
  begins_word (some prev) rs =
      u.is_lower prev || u.is_digit prev || (u.is_upper prev && next_is_lower rs)

  -- The loop, with the rune before the rest.
  pub snake_from : Option ℕ → List ℕ → List ℕ
  unfolding begins_word
  snake_from prev [] = []
  snake_from prev (r ∷ rs) =
      let rest = snake_from (some r) rs in
      if u.is_upper r
      then if begins_word prev rs then b'_' ∷ u.to_lower r ∷ rest else u.to_lower r ∷ rest
      else r ∷ rest

  unfoldable pub camel_to_snake : Str → Str
  unfolding snake_from
  camel_to_snake s = u.text (snake_from none (u.runes s))

  unfoldable pub snake : Str → Str
  unfolding sanitize camel_to_snake
  snake s = sanitize (camel_to_snake s)

  -- strings.ToUpper and strings.ToLower
  abbrev pub upper_text : Str → Str
  upper_text s = u.text (map u.to_upper (u.runes s))

  abbrev pub lower_text : Str → Str
  lower_text s = u.text (map u.to_lower (u.runes s))

  unfoldable pub normalize_mib : Str → Str
  unfolding sanitize
  normalize_mib mib =
      let m = trim_space mib in
      if is_blank m
      then []
      else sanitize (underscored (lower_text (trim_suffix (upper_text m) (lit "-MIB"))))

  unfoldable pub normalize_symbol : Str → Str
  unfolding snake
  normalize_symbol symbol =
      let s = trim_space symbol in if is_blank s then [] else join b'.' (map snake (split b'.' s))

  unfoldable pub fallback_name : Str → Str → Str → Str
  unfolding normalize_mib normalize_symbol
  fallback_name namespace mib symbol =
      join b'.' (namespace ∷ some_part (normalize_mib mib) ++ some_part (normalize_symbol symbol))
