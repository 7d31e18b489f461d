-- ===== src/Naming/Fallback/Charset.antt =====
-- internal/naming/fallback.go: the runes of generated names.
use mathlib.Core.List.{append_assoc}
use networkdevicereceiver.Base.{
  ℕ, ◌<◌, ◌≡◌, refl, sym, ap, ◌∙◌, subst, Bool-cases, inl, inr, true, List, [], ◌∷◌, ◌++◌, map,
  arith, All, All-append, Str, is_blank, trim_left, trim_space, split, join, Letters,
}
use networkdevicereceiver.Naming.Fallback.{
  is_name_rune, clean, is_underscore, reverse_onto, trim_underscores, sanitize, snake,
  camel_to_snake, normalize_mib, normalize_symbol, some_part, fallback_name,
}

-- What UTF-8 gives: an ASCII byte is a rune of its own wherever it stands, a text is decoded into runes of
-- a set, and those runes are decoded again from what they are encoded to.
pub record IsEncoding (u : Letters) (IsRune : ℕ → Type 0) : Type 0 where
  pub nothing : u.runes [] ≡ []
  pub apart : (s t : Str) (c : ℕ) → c < 128 → u.runes (s ++ c ∷ t) ≡ u.runes s ++ c ∷ u.runes t
  pub decoded : (s : Str) → All IsRune (u.runes s)
  pub kept : (rs : List ℕ) → All IsRune rs → u.runes (u.text rs) ≡ rs
  pub underscore : IsRune b'_'

reverse_onto-append : (acc s : Str) → reverse_onto acc s ≡ reverse_onto [] s ++ acc
unfolding reverse_onto
reverse_onto-append acc [] = refl
reverse_onto-append acc (c ∷ s) =
    reverse_onto-append (c ∷ acc) s
    ∙ sym (append_assoc (reverse_onto [] s) (c ∷ []) acc)
    ∙ ap (λ l. l ++ acc) (sym (reverse_onto-append (c ∷ []) s))

reverse_reverse : (acc s : Str) → reverse_onto [] (reverse_onto acc s) ≡ reverse_onto s acc
unfolding reverse_onto
reverse_reverse acc [] = refl
reverse_reverse acc (c ∷ s) = reverse_reverse (c ∷ acc) s

module _ (u : Letters) {IsRune : ℕ → Type 0} (enc : IsEncoding u IsRune) where
  -- The runes of a text may all stand in a name.
  abbrev pub AreNameRunes : List ℕ → Type 0
  AreNameRunes rs = All (λ r. is_name_rune u r ≡ true) rs

  abbrev pub IsName : Str → Type 0
  IsName s = AreNameRunes (u.runes s)

  clean_rune : (r : ℕ) → is_name_rune u (clean u r) ≡ true
  clean_rune r = elim (Bool-cases (is_name_rune u r)) [
    | inl b ↦ rw b b
    | inr b ↦ rw b (ground arith)
  ]

  cleaned : (rs : List ℕ) → AreNameRunes (map (clean u) rs)
  cleaned [] = tt
  cleaned (r ∷ rs) = (clean_rune r, cleaned rs)

  cleaned-IsRune : (rs : List ℕ) → All IsRune rs → All IsRune (map (clean u) rs)
  cleaned-IsRune [] h = tt
  cleaned-IsRune (r ∷ rs) h = elim (Bool-cases (is_name_rune u r)) [
    | inl b ↦ rw b (h.0, cleaned-IsRune rs h.1)
    | inr b ↦ rw b (enc.underscore, cleaned-IsRune rs h.1)
  ]

  left_part : (xs ys : List ℕ) → AreNameRunes (xs ++ ys) → AreNameRunes xs
  left_part [] ys h = tt
  left_part (x ∷ xs) ys h = (h.0, left_part xs ys h.1)

  ascii-underscore : (c : ℕ) → is_underscore c ≡ true → c < 128
  ascii-underscore c b = ground arith

  trim_left-IsName : (s : Str) → IsName s → IsName (trim_left is_underscore s)
  unfolding trim_left
  trim_left-IsName [] h = h
  trim_left-IsName (c ∷ s) h = elim (Bool-cases (is_underscore c)) [
    | inl b ↦
        let e : u.runes (c ∷ s) ≡ c ∷ u.runes s =
          enc.apart [] s c (ascii-underscore c b) ∙ rw enc.nothing in
        rw b (trim_left-IsName s ((subst AreNameRunes e h).1))
    | inr b ↦ rw b h
  ]

  trim_right-IsName :
      (w : Str) → IsName (reverse_onto [] w) → IsName (reverse_onto [] (trim_left is_underscore w))
  unfolding trim_left reverse_onto
  trim_right-IsName [] h = h
  trim_right-IsName (c ∷ w) h = elim (Bool-cases (is_underscore c)) [
    | inl b ↦
        let e =
          ap u.runes (reverse_onto-append (c ∷ []) w)
          ∙ enc.apart (reverse_onto [] w) [] c (ascii-underscore c b) in
        rw b
          (trim_right-IsName w (left_part (u.runes (reverse_onto [] w)) _ (subst AreNameRunes e h)))
    | inr b ↦ rw b h
  ]

  sanitize-IsName : (s : Str) → IsName (sanitize u s)
  unfolding sanitize trim_underscores reverse_onto
  sanitize-IsName s =
      let text = u.text (map (clean u) (u.runes s)) in
      let same =
        enc.kept (map (clean u) (u.runes s)) (cleaned-IsRune (u.runes s) (enc.decoded s)) in
      let whole : IsName text = subst AreNameRunes (sym same) (cleaned (u.runes s)) in
      let left = trim_left-IsName text whole in
      trim_right-IsName (reverse_onto [] (trim_left is_underscore text))
        (subst IsName (sym (reverse_reverse [] (trim_left is_underscore text))) left)

  join-IsName : (ws : List Str) → All IsName ws → IsName (join b'.' ws)
  unfolding join
  join-IsName [] h = subst AreNameRunes (sym enc.nothing) tt
  join-IsName (w ∷ []) h = h.0
  join-IsName (w ∷ v ∷ ws) h =
      subst AreNameRunes (sym (enc.apart w (join b'.' (v ∷ ws)) b'.' (omega arith))) (
        All-append (λ r. is_name_rune u r ≡ true) (u.runes w) (b'.' ∷ u.runes (join b'.' (v ∷ ws)))
          h.0 (ground arith, join-IsName (v ∷ ws) h.1))

  snakes-IsName : (ws : List Str) → All IsName (map (snake u) ws)
  unfolding snake
  snakes-IsName [] = tt
  snakes-IsName (w ∷ ws) = (sanitize-IsName (camel_to_snake u w), snakes-IsName ws)

  normalize_mib-IsName : (mib : Str) → IsName (normalize_mib u mib)
  unfolding normalize_mib
  normalize_mib-IsName mib = elim (Bool-cases (is_blank (trim_space mib))) [
    | inl b ↦ rw b (subst AreNameRunes (sym enc.nothing) tt)
    | inr b ↦ rw b (sanitize-IsName _)
  ]

  normalize_symbol-IsName : (symbol : Str) → IsName (normalize_symbol u symbol)
  unfolding normalize_symbol
  normalize_symbol-IsName symbol = elim (Bool-cases (is_blank (trim_space symbol))) [
    | inl b ↦ rw b (subst AreNameRunes (sym enc.nothing) tt)
    | inr b ↦ rw b (join-IsName _ (snakes-IsName (split b'.' (trim_space symbol))))
  ]

  some_part-IsName : (s : Str) → IsName s → All IsName (some_part s)
  some_part-IsName [] h = tt
  some_part-IsName (c ∷ s) h = (h, tt)

  -- For runes that are encoded and decoded as in UTF-8: whatever the MIB and the symbol are called, the
  -- generated name is made of letters, digits and `_`, `.`, `-`, `/`, if the configured namespace is.
  pub fallback_name-IsName :
      (namespace mib symbol : Str)
      → IsName namespace
      → IsName (fallback_name u namespace mib symbol)
  unfolding fallback_name
  fallback_name-IsName namespace mib symbol h =
      join-IsName
        (namespace ∷ some_part (normalize_mib u mib) ++ some_part (normalize_symbol u symbol))
        (
          h,
          All-append IsName (some_part (normalize_mib u mib))
              (some_part (normalize_symbol u symbol))
              (some_part-IsName (normalize_mib u mib) (normalize_mib-IsName mib))
              (some_part-IsName (normalize_symbol u symbol) (normalize_symbol-IsName symbol)),
        )
