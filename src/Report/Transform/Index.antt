-- ===== src/Report/Transform/Index.antt =====
-- internal/report/transform.go: re-slicing a row index arc by arc.
use networkdevicereceiver.Base.{
  ℕ, zero, suc, ◌+◌, ◌-◌, ◌<◌, ◌≤◌, ◌≡◌, refl, sym, ap, ◌∙◌, Bool-cases, inl, inr, true, false,
  Option, none, some, List, [], ◌∷◌, ◌++◌, arith, leb, length, take, drop, Str, split, split_onto,
  join, ◌==◌,
}
use networkdevicereceiver.Profile.Definition.{MetricIndexTransform}
use networkdevicereceiver.Report.Transform.{
  slice, int_limit, slices, append_to, joined_arcs, transform_index,
}

-- A text is never split into nothing.
abbrev IsFull : List Str → Type 0
IsFull [] = ⊥
IsFull (w ∷ ws) = Unit

split_onto-IsFull : (ws : List Str) (c : ℕ) → IsFull (split_onto ws c)
unfolding split_onto
split_onto-IsFull [] c = tt
split_onto-IsFull (w ∷ ws) c = tt

split-IsFull : (sep : ℕ) (s : Str) → IsFull (split sep s)
unfolding split
split-IsFull sep [] = tt
split-IsFull sep (c ∷ s) = elim (Bool-cases (c == sep)) [
  | inl b ↦ rw b tt
  | inr b ↦ rw b (split_onto-IsFull (split sep s) c)
]

join-split_onto :
    (sep c : ℕ) (ws : List Str) → IsFull ws → join sep (split_onto ws c) ≡ c ∷ join sep ws
unfolding join split_onto
join-split_onto sep c [] h = absurd h
join-split_onto sep c (w ∷ []) h = refl
join-split_onto sep c (w ∷ v ∷ ws) h = refl

join-empty : (sep : ℕ) (ws : List Str) → IsFull ws → join sep ([] ∷ ws) ≡ sep ∷ join sep ws
unfolding join
join-empty sep [] h = absurd h
join-empty sep (w ∷ ws) h = refl

-- Joining what was split gives the text back.
join-split : (sep : ℕ) (s : Str) → join sep (split sep s) ≡ s
unfolding split
join-split sep [] = unfold join in refl
join-split sep (c ∷ s) =
    let full = split-IsFull sep s in
    let rest = join-split sep s in
    elim (Bool-cases (c == sep)) [
      | inl b ↦
          let q : c ≡ sep = ground (arith, b) in
          rw b (join-empty sep (split sep s) full ∙ rw rest (ap (λ d. d ∷ s) (sym q)))
      | inr b ↦ rw b (join-split_onto sep c (split sep s) full ∙ rw rest)
    ]

module _ {ℓ} {A : Type ℓ} where
  take-add : (n i j : ℕ) (xs : List A) → n ≡ i + j → take n xs ≡ take i xs ++ take j (drop i xs)
  take-add n zero j xs e = ap (λ k. take k xs) (omega arith)
  take-add zero (suc i) j xs e = absurd (omega arith)
  take-add (suc n) (suc i) zero [] e = refl
  take-add (suc n) (suc i) (suc j) [] e = refl
  take-add (suc n) (suc i) j (x ∷ xs) e = ap (λ ys. x ∷ ys) (take-add n i j xs (omega arith))

  drop-add : (n i j : ℕ) (xs : List A) → n ≡ i + j → drop n xs ≡ drop j (drop i xs)
  drop-add n zero j xs e = ap (λ k. drop k xs) (omega arith)
  drop-add zero (suc i) j xs e = absurd (omega arith)
  drop-add (suc n) (suc i) zero [] e = refl
  drop-add (suc n) (suc i) (suc j) [] e = refl
  drop-add (suc n) (suc i) j (x ∷ xs) e = drop-add n i j xs (omega arith)

  append-nil : (xs : List A) → xs ++ [] ≡ xs
  append-nil [] = refl
  append-nil (x ∷ xs) = ap (λ ys. x ∷ ys) (append-nil xs)

  take-all : (xs : List A) → take (length xs) xs ≡ xs
  take-all [] = refl
  take-all (x ∷ xs) = ap (λ ys. x ∷ ys) (take-all xs)

abbrev pub range : ℕ → ℕ → MetricIndexTransform
range a b = record { start = a; end = b }

slice-outside :
    (arcs : List Str) (a b : ℕ)
    → b < int_limit
    → leb (length arcs) b ≡ true
    → slice arcs (range a b) ≡ none
unfolding slice
slice-outside arcs a b small h = ground arith

slice-inside :
    (arcs : List Str) (a b : ℕ)
    → b < int_limit
    → a ≤ b
    → leb (length arcs) b ≡ false
    → slice arcs (range a b) ≡ some (take (b + 1 - a) (drop a arcs))
unfolding slice
slice-inside arcs a b small h k = ground arith

two_parts :
    (arcs : List Str) (a m b : ℕ)
    → a ≤ m
    → m < b
    → take (m + 1 - a) (drop a arcs) ++ take (b + 1 - (m + 1)) (drop (m + 1) arcs)
      ≡ take (b + 1 - a) (drop a arcs)
two_parts arcs a m b h k =
    rw (drop-add (m + 1) a (m + 1 - a) arcs (omega arith))
      (sym (take-add (b + 1 - a) (m + 1 - a) (b + 1 - (m + 1)) (drop a arcs) (omega arith)))

append_to-none : (o : Option (List Str)) → append_to o none ≡ none
append_to-none none = refl
append_to-none (some xs) = refl

-- Two ranges of which the second goes on where the first ends are one.
adjacent :
    (arcs : List Str) (a m b : ℕ)
    → b < int_limit
    → a ≤ m
    → m < b
    → slices arcs (range a m ∷ range (m + 1) b ∷ []) ≡ slices arcs (range a b ∷ [])
unfolding slices
adjacent arcs a m b small h k = elim (Bool-cases (leb (length arcs) b)) [
  | inl outside ↦
      rw (slice-outside arcs (m + 1) b small outside, slice-outside arcs a b small outside)
        (append_to-none (slice arcs (range a m)))
  | inr inside ↦
      let first = slice-inside arcs a m (omega arith) h (ground arith) in
      let second = slice-inside arcs (m + 1) b small (omega arith) inside in
      let whole = slice-inside arcs a b small (omega arith) inside in
      rw (first, second, whole)
        (rw
          (
            append-nil (take (b + 1 - a) (drop a arcs)),
            append-nil (take (b + 1 - (m + 1)) (drop (m + 1) arcs)),
          )
          (ap some (two_parts arcs a m b h k)))
]

-- Of an index with n arcs, where n and the ends of the ranges are within the range of int: the arcs a to m followed by the arcs m + 1 to b are the arcs a to b, or
-- both are refused; and the arcs 0 to n - 1 are the index.
pub transform_index-ranges :
    (index : Str) (a m b : ℕ)
    → length (split b'.' index) < int_limit
    → b < int_limit
    → a ≤ m
    → m < b
    → (transform_index index (range a m ∷ range (m + 1) b ∷ [])
        ≡ transform_index index (range a b ∷ []))
      × (transform_index index (range 0 (length (split b'.' index) - 1) ∷ []) ≡ some index)
unfolding transform_index slices
transform_index-ranges index a m b short small h k = (
  ap joined_arcs (adjacent (split b'.' index) a m b small h k),
  whole (split b'.' index) refl short (split-IsFull b'.' index),
)
  where
    whole :
        (arcs : List Str)
        → split b'.' index ≡ arcs
        → length arcs < int_limit
        → IsFull arcs
        → joined_arcs (append_to (slice arcs (range 0 (length arcs - 1))) (some [])) ≡ some index
    whole [] e n f = absurd f
    whole (w ∷ ws) e few f =
        let n = length (w ∷ ws) in
        let all : n - 1 + 1 - 0 ≡ n = omega arith in
        let text : join b'.' (w ∷ ws) ≡ index = ap (join b'.') (sym e) ∙ join-split b'.' index in
        let part = slice-inside (w ∷ ws) 0 (n - 1) (omega arith) (omega arith) (ground arith) in
        rw part (
          ap (λ k. some (join b'.' (take k (w ∷ ws) ++ []))) all
          ∙ ap (λ ws'. some (join b'.' (ws' ++ []))) (take-all (w ∷ ws))
          ∙ ap (λ ws'. some (join b'.' ws')) (append-nil (w ∷ ws))
          ∙ ap some text)
