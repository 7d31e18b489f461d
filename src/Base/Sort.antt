-- ===== src/Base/Sort.antt =====
-- sort.Slice, slices.Sorted and sort.Strings, as insertion sort by a Boolean order. The program
-- sorts by keys that are distinct, so that the sorted list is the only one.
use Prim.Native.Nat.{Ordering}
use mathlib.Core.Path.{◌≡◌, refl}
use mathlib.Core.Bool.{Bool, true, false}
use mathlib.Core.List.{List, [], ◌∷◌, Perm}
use mathlib.Core.List.Perm
use native.Mathlib.Omega.{arith}
use networkdevicereceiver.Base.Tests.{if◌then◌else◌, Bool-cases}
use networkdevicereceiver.Base.Text.{Str, str_compare}
use mathlib.Core.Logic.{inl, inr}

module _ {ℓ} {A : Type ℓ} (less : A → A → Bool) where
  -- before the first entry that is not less
  unfoldable pub place : A → List A → List A
  place x [] = x ∷ []
  place x (y ∷ ys) = if less y x then y ∷ place x ys else x ∷ y ∷ ys

  unfoldable pub sort : List A → List A
  unfolding place
  sort [] = []
  sort (x ∷ xs) = place x (sort xs)

  place-perm : (x : A) (ys : List A) → Perm (place x ys) (x ∷ ys)
  unfolding place
  place-perm x [] = Perm.refl (x ∷ [])
  place-perm x (y ∷ ys) = elim (Bool-cases (less y x)) [
    | inl b ↦ rw b (Perm.trans (Perm.cons y (place-perm x ys)) (Perm.swap x y ys))
    | inr b ↦ rw b (Perm.refl (x ∷ y ∷ ys))
  ]

  -- Sorting loses nothing and makes nothing up.
  pub sort-perm : (xs : List A) → Perm (sort xs) xs
  unfolding sort
  sort-perm [] = Perm.refl []
  sort-perm (x ∷ xs) = Perm.trans (place-perm x (sort xs)) (Perm.cons x (sort-perm xs))

  -- No entry is less than the one before it.
  pub data IsSorted : List A → Type ℓ where
    none : IsSorted []
    one : (x : A) → IsSorted (x ∷ [])
    more : {x y : A} {l : List A} → less y x ≡ false → IsSorted (y ∷ l) → IsSorted (x ∷ y ∷ l)

  module _ (asym : (x y : A) → less x y ≡ true → less y x ≡ false) where
    place_after :
        (x y : A) (l : List A) → less y x ≡ true → IsSorted (y ∷ l) → IsSorted (y ∷ place x l)
    unfolding place
    place_after x y [] h s = more (asym y x h) (one x)
    place_after x y (z ∷ l) h (more k s) = elim (Bool-cases (less z x)) [
      | inl b ↦ rw b (more k (place_after x z l b s))
      | inr b ↦ rw b (more (asym y x h) (more b s))
    ]

    place-IsSorted : (x : A) (l : List A) → IsSorted l → IsSorted (place x l)
    unfolding place
    place-IsSorted x [] s = one x
    place-IsSorted x (y ∷ l) s = elim (Bool-cases (less y x)) [
      | inl b ↦ rw b (place_after x y l b s)
      | inr b ↦ rw b (more b s)
    ]

    -- The result is in order, for any order that is not both ways.
    pub sort-IsSorted : (xs : List A) → IsSorted (sort xs)
    unfolding sort
    sort-IsSorted [] = none
    sort-IsSorted (x ∷ xs) = place-IsSorted x (sort xs) (sort-IsSorted xs)

-- a < b of Go strings
unfoldable pub str_less : Str → Str → Bool
unfolding str_compare
str_less a b = elim (str_compare a b) [
  | Ordering.lt ↦ true
  | Ordering.eq ↦ false
  | Ordering.gt ↦ false
]

pub str_less_asym : (a b : Str) → str_less a b ≡ true → str_less b a ≡ false
unfolding str_less
str_less_asym [] [] h = refl
str_less_asym [] (b ∷ bs) h = refl
str_less_asym (a ∷ as') [] h = cc
str_less_asym (a ∷ as') (b ∷ bs) h = ground (arith, str_less_asym as' bs)

pub str_less_irrefl : (a : Str) → str_less a a ≡ false
unfolding str_less
str_less_irrefl [] = refl
str_less_irrefl (a ∷ as') = ground (arith, str_less_irrefl as')
