-- ===== src/Report/Pool/Offers/Streams.antt =====
-- internal/report/pool.go: streams and their datapoints, under the two changes that an offer may make.
use networkdevicereceiver.Base.{
  ℕ, zero, suc, ◌+◌, ◌<◌, ◌≤◌, ◌≡◌, refl, sym, ap, ◌∙◌, subst, ◌⊎◌, inl, inr, Bool-cases,
  Option-cases, Option, none, some, List, [], ◌∷◌, ◌++◌, arith, length, length-append, get_elem?,
  Str, str_eq, str_eq_iff, ℤ, Floats,
}
use networkdevicereceiver.Base.Dict
use networkdevicereceiver.Base.Dict.{Dict, lookup-insert}
use networkdevicereceiver.Report.Pool.{Point, Stream, change_at}

pub get-append-old {ℓ} :
    {A : Type ℓ} (xs ys : List A) (i : ℕ) → i < length xs → get_elem? (xs ++ ys) i ≡ get_elem? xs i
get-append-old [] ys i h = absurd (omega arith)
get-append-old (x ∷ xs) ys zero h = refl
get-append-old (x ∷ xs) ys (suc i) h = get-append-old xs ys i (omega arith)

pub get-append-new {ℓ} :
    {A : Type ℓ} (xs : List A) (x : A) → get_elem? (xs ++ x ∷ []) (length xs) ≡ some x
get-append-new [] x = refl
get-append-new (y ∷ xs) x = get-append-new xs x

module _ {ℓ} {A : Type ℓ} (f : A → A) where
  get-change-other :
      (xs : List A) (n i : ℕ) → ¬ (i ≡ n) → get_elem? (change_at n f xs) i ≡ get_elem? xs i
  unfolding change_at
  get-change-other [] n i h = refl
  get-change-other (x ∷ xs) zero zero h = absurd (h refl)
  get-change-other (x ∷ xs) zero (suc i) h = refl
  get-change-other (x ∷ xs) (suc n) zero h = refl
  get-change-other (x ∷ xs) (suc n) (suc i) h = get-change-other xs n i (λ e. h (ap suc e))

  pub get-change-same :
      (xs : List A) (n : ℕ)
      → n < length xs
      → (x : A) × (get_elem? xs n ≡ some x) × (get_elem? (change_at n f xs) n ≡ some (f x))
  unfolding change_at
  get-change-same [] n h = absurd (omega arith)
  get-change-same (x ∷ xs) zero h = (x, refl, refl)
  get-change-same (x ∷ xs) (suc n) h = get-change-same xs n (omega arith)

  length-change_at : (xs : List A) (n : ℕ) → length (change_at n f xs) ≡ length xs
  unfolding change_at
  length-change_at [] n = refl
  length-change_at (x ∷ xs) zero = refl
  length-change_at (x ∷ xs) (suc n) = ap suc (length-change_at xs n)

module _ {fl : Floats} where
  abbrev pub value_of : Option (Point fl) → ℤ → Option (fl.F × ℤ)
  value_of none priority = none
  value_of (some q) priority = some (q.value, priority)

  abbrev pub shown : List (Point fl) → Option Stream → Option (fl.F × ℤ)
  shown heap none = none
  shown heap (some s) = value_of (get_elem? heap s.point) s.priority

  -- Each stream has a datapoint, and no two streams share one.
  pub record IsSound (heap : List (Point fl)) (streams : Dict Stream) : Type 0 where
    pub inside : (k : Str) (s : Stream) → Dict.lookup k streams ≡ some s → s.point < length heap
    pub apart :
        (k j : Str) (s t : Stream)
        → Dict.lookup k streams ≡ some s
        → Dict.lookup j streams ≡ some t
        → s.point ≡ t.point
        → k ≡ j

  module _ (heap : List (Point fl)) (streams : Dict Stream) (sound : IsSound heap streams) where
    insert_cases :
        (key : Str) (s' : Stream) (k : Str) (s : Stream)
        → Dict.lookup k (Dict.insert key s' streams) ≡ some s
        → ((key ≡ k) × (s' ≡ s)) ⊎ (Dict.lookup k streams ≡ some s)
    insert_cases key s' k s e = elim (Bool-cases (str_eq key k)) [
      | inl same ↦
          let q : some s' ≡ some s = rw (lookup-insert key k s' streams, same) at e in
          inl ((str_eq_iff key k).0 same, cc q)
      | inr other ↦ inr (rw (lookup-insert key k s' streams, other) at e)
    ]

    insert-IsSound :
        (heap' : List (Point fl)) (key : Str) (s' : Stream)
        → length heap ≤ length heap'
        → s'.point < length heap'
        → ((j : Str) (t : Stream) → Dict.lookup j streams ≡ some t → t.point ≡ s'.point → key ≡ j)
        → IsSound heap' (Dict.insert key s' streams)
    insert-IsSound heap' key s' longer inside own = record {
      inside = λ k s e. elim (insert_cases key s' k s e) [
        | inl (q, same) ↦ subst (λ t. t.point < length heap') same inside
        | inr old ↦ omega (arith, sound.inside k s old)
      ];
      apart = λ k j s t e g h. elim (insert_cases key s' k s e) [
        | inl (q, same) ↦ elim (insert_cases key s' j t g) [
          | inl (r, _) ↦ sym q ∙ r
          | inr old ↦ sym q ∙ own j t old (sym h ∙ sym (ap (λ u. u.point) same))
        ]
        | inr new ↦ elim (insert_cases key s' j t g) [
          | inl (r, same) ↦ sym (own k s new (h ∙ sym (ap (λ u. u.point) same))) ∙ r
          | inr old ↦ sound.apart k j s t new old h
        ]
      ];
    }

    pub append-IsSound :
        (key : Str) (q : Point fl) (priority : ℤ)
        → IsSound
            (heap ++ q ∷ [])
            (Dict.insert key (record { point = length heap; priority = priority }) streams)
    append-IsSound key q priority =
        let more : length (heap ++ q ∷ []) ≡ length heap + 1 = length-append heap (q ∷ []) in
        insert-IsSound (heap ++ q ∷ []) key (record { point = length heap; priority = priority })
          (omega arith) (omega arith) (λ j t e h. absurd (omega (arith, sound.inside j t e)))

    pub change-IsSound :
        (key : Str) (s : Stream) (f : Point fl → Point fl) (priority : ℤ)
        → Dict.lookup key streams ≡ some s
        → IsSound
            (change_at s.point f heap)
            (Dict.insert key (record s { priority = priority }) streams)
    change-IsSound key s f priority e =
        let same : length (change_at s.point f heap) ≡ length heap =
          length-change_at f heap s.point in
        insert-IsSound (change_at s.point f heap) key (record s { priority = priority })
          (omega arith) (omega (arith, sound.inside key s e))
          (λ j t g h. sound.apart key j s t e g (sym h))

    pub shown-append :
        (q : Point fl) (key : Str)
        → shown (heap ++ q ∷ []) (Dict.lookup key streams) ≡ shown heap (Dict.lookup key streams)
    shown-append q key = elim (Option-cases (Dict.lookup key streams)) [
      | inl e ↦ rw e
      | inr (s, e) ↦ rw e (rw (get-append-old heap (q ∷ []) s.point (sound.inside key s e)))
    ]

    pub shown-change :
        (f : Point fl → Point fl) (key k : Str) (s : Stream)
        → Dict.lookup key streams ≡ some s
        → ¬ (key ≡ k)
        → shown (change_at s.point f heap) (Dict.lookup k streams)
          ≡ shown heap (Dict.lookup k streams)
    shown-change f key k s e ne = elim (Option-cases (Dict.lookup k streams)) [
      | inl g ↦ rw g
      | inr (t, g) ↦ rw g (
          rw
            (get-change-other f heap s.point t.point (λ q. ne (sound.apart key k s t e g (sym q)))))
    ]
