-- ===== src/Base/Text.antt =====
-- Go strings: lists of bytes, with the functions of package strings that the program calls.
use Prim.Native.Nat.{ℕ, compare, Ordering}
use Prim.Native.Char.{code}
use Prim.Native.String.{String}
use mathlib.Core.Path.{◌≡◌, refl}
use mathlib.Core.Logic.{◌↔◌}
use mathlib.Core.Bool.{Bool, true, false, ◌&&◌, ◌||◌}
use mathlib.Core.List.{List, [], ◌∷◌, ◌++◌, reverse}
use native.Mathlib.Omega.{arith}
use networkdevicereceiver.Base.Tests.{leb, ◌==◌, if◌then◌else◌}
use networkdevicereceiver.Base.Lists.{length, drop}

abbrev pub Str : Type 0
Str = List ℕ

-- A Go literal in ASCII.
abbrev pub lit : String → Str
lit String.[] = []
lit (String.◌∷◌ c s) = code c ∷ lit s

-- a == b
unfoldable pub str_eq : Str → Str → Bool
str_eq [] [] = true
str_eq [] (b ∷ bs) = false
str_eq (a ∷ as') [] = false
str_eq (a ∷ as') (b ∷ bs) = a == b && str_eq as' bs

pub str_eq_refl : (a : Str) → str_eq a a ≡ true
unfolding str_eq
str_eq_refl [] = refl
str_eq_refl (a ∷ s) = ground (arith, str_eq_refl s)

pub eq_of_str_eq : (a b : Str) → str_eq a b ≡ true → a ≡ b
unfolding str_eq
eq_of_str_eq [] [] h = refl
eq_of_str_eq [] (b ∷ bs) h = cc
eq_of_str_eq (a ∷ s) [] h = cc
eq_of_str_eq (a ∷ s) (b ∷ t) h = ground (arith, eq_of_str_eq s t)

pub str_eq_iff : (a b : Str) → (str_eq a b ≡ true) ↔ (a ≡ b)
str_eq_iff a b = (eq_of_str_eq a b, λ e. rw e (str_eq_refl b))

-- s == ""
abbrev pub is_blank : Str → Bool
is_blank [] = true
is_blank (c ∷ s) = false

-- strings.Compare, the byte order.
unfoldable pub str_compare : Str → Str → Ordering
str_compare [] [] = Ordering.eq
str_compare [] (b ∷ bs) = Ordering.lt
str_compare (a ∷ s) [] = Ordering.gt
str_compare (a ∷ s) (b ∷ t) = elim (compare a b) [
  | Ordering.lt ↦ Ordering.lt
  | Ordering.eq ↦ str_compare s t
  | Ordering.gt ↦ Ordering.gt
]

-- strings.HasPrefix
unfoldable pub has_prefix : Str → Str → Bool
has_prefix s [] = true
has_prefix [] (p ∷ ps) = false
has_prefix (c ∷ s) (p ∷ ps) = c == p && has_prefix s ps

pub has_prefix-append : (p s : Str) → has_prefix (p ++ s) p ≡ true
unfolding has_prefix
has_prefix-append [] s = refl
has_prefix-append (p ∷ ps) s = ground (arith, has_prefix-append ps s)

pub has_prefix-split : (s p : Str) → has_prefix s p ≡ true → p ++ drop (length p) s ≡ s
unfolding has_prefix
has_prefix-split s [] h = refl
has_prefix-split [] (p ∷ ps) h = cc
has_prefix-split (c ∷ s) (p ∷ ps) h = ground (arith, has_prefix-split s ps)

-- strings.TrimPrefix
unfoldable pub trim_prefix : Str → Str → Str
trim_prefix s p = if has_prefix s p then drop (length p) s else s

-- strings.TrimSuffix
unfoldable pub trim_suffix : Str → Str → Str
unfolding trim_prefix
trim_suffix s p = reverse (trim_prefix (reverse s) (reverse p))

-- unicode.IsSpace on the ASCII bytes
abbrev pub is_space : ℕ → Bool
is_space c = (leb 9 c && leb c 13) || c == 32

unfoldable pub trim_left : (ℕ → Bool) → Str → Str
trim_left p [] = []
trim_left p (c ∷ s) = let rest = trim_left p s in if p c then rest else c ∷ s

-- strings.TrimSpace, on ASCII text
unfoldable pub trim_space : Str → Str
unfolding trim_left
trim_space s = reverse (trim_left is_space (reverse (trim_left is_space s)))

-- strings.Split at one byte: never empty.
unfoldable pub split_onto : List Str → ℕ → List Str
split_onto [] c = (c ∷ []) ∷ []
split_onto (w ∷ ws) c = (c ∷ w) ∷ ws

unfoldable pub split : ℕ → Str → List Str
unfolding split_onto
split sep [] = [] ∷ []
split sep (c ∷ s) = let rest = split sep s in if c == sep then [] ∷ rest else split_onto rest c

-- strings.Join with one byte between
unfoldable pub join : ℕ → List Str → Str
join sep [] = []
join sep (w ∷ []) = w
join sep (w ∷ v ∷ ws) = w ++ sep ∷ join sep (v ∷ ws)

-- strings.Contains of one byte
unfoldable pub contains_byte : Str → ℕ → Bool
contains_byte [] b = false
contains_byte (c ∷ s) b = c == b || contains_byte s b
