-- ===== src/Profile/Store/Seen.antt =====
-- internal/profile/store.go: the names that `expand` has seen, and how many profiles are left to see.
use networkdevicereceiver.Base.{
  ℕ, suc, ◌≤◌, ◌<◌, ◌≡◌, ◌⊎◌, inl, inr, Bool-cases, true, false, some, List, [], ◌∷◌, ◌++◌, arith,
  if◌then◌else◌, length, All, Str, str_eq, str_eq_iff, str_eq_refl,
}
use networkdevicereceiver.Base.Dict
use networkdevicereceiver.Base.Dict.{Dict}
use networkdevicereceiver.Profile.Store.{seen_name}

-- The profiles that are not yet seen.
pub unseen {ℓ} : {A : Type ℓ} → List Str → Dict A → ℕ
unseen seen [] = 0
unseen seen ((name, def) ∷ raw) =
    if seen_name name seen then unseen seen raw else suc (unseen seen raw)

pub unseen-le {ℓ} : {A : Type ℓ} (seen : List Str) (raw : Dict A) → unseen seen raw ≤ length raw
unfolding unseen
unseen-le seen [] = omega arith
unseen-le seen ((name, def) ∷ raw) = ground (arith, unseen-le seen raw)

pub unseen_mono {ℓ} :
    {A : Type ℓ} (n : Str) (seen : List Str) (raw : Dict A)
    → unseen (n ∷ seen) raw ≤ unseen seen raw
unfolding unseen seen_name
unseen_mono n seen [] = omega arith
unseen_mono n seen ((name, def) ∷ raw) = ground (arith, unseen_mono n seen raw)

skipped :
    (n name : Str) (seen : List Str)
    → str_eq name n ≡ false
    → seen_name name (n ∷ seen) ≡ seen_name name seen
unfolding seen_name
skipped n name seen h = ground (arith, str_eq_iff n name, str_eq_iff name n)

-- Seeing a profile that is there leaves fewer.
pub unseen_less {ℓ} :
    {A : Type ℓ} (n : Str) (def : A) (seen : List Str) (raw : Dict A)
    → seen_name n seen ≡ false
    → Dict.lookup n raw ≡ some def
    → unseen (n ∷ seen) raw < unseen seen raw
unfolding unseen Dict.lookup
unseen_less n def seen [] h e = cc
unseen_less n def seen ((name, d) ∷ raw) h e = elim (Bool-cases (str_eq name n)) [
  | inl same ↦
      let eq = (str_eq_iff name n).0 same in
      let new : seen_name name seen ≡ false = rw eq h in
      let old : seen_name name (n ∷ seen) ≡ true = unfold seen_name in rw eq (rw str_eq_refl) in
      rw (new, old) (omega (arith, unseen_mono n seen raw))
  | inr other ↦
      let rest = unseen_less n def seen raw h (rw other at e) in
      let kept : seen_name name (n ∷ seen) ≡ seen_name name seen = skipped n name seen other in
      rw kept (elim (Bool-cases (seen_name name seen)) [
        | inl b ↦ rw b rest
        | inr b ↦ rw b (omega (arith, rest))
      ])
]

abbrev pub IsSeen : List Str → Str → Type 0
IsSeen seen n = seen_name n seen ≡ true

pub IsSeen-here : (n : Str) (seen : List Str) → IsSeen (n ∷ seen) n
unfolding seen_name
IsSeen-here n seen = rw str_eq_refl

pub IsSeen-there : (m n : Str) (seen : List Str) → IsSeen seen m → IsSeen (n ∷ seen) m
unfolding seen_name
IsSeen-there m n seen h = ground arith

pub IsSeen-cases : (m n : Str) (seen : List Str) → IsSeen (n ∷ seen) m → (n ≡ m) ⊎ IsSeen seen m
unfolding seen_name
IsSeen-cases m n seen h = elim (Bool-cases (str_eq n m)) [
  | inl b ↦ inl ((str_eq_iff n m).0 b)
  | inr b ↦ inr (rw b at h)
]

pub IsSeen-left : (m : Str) (xs ys : List Str) → IsSeen xs m → IsSeen (xs ++ ys) m
unfolding seen_name
IsSeen-left m [] ys h = cc
IsSeen-left m (x ∷ xs) ys h = ground (arith, IsSeen-left m xs ys)

pub IsSeen-right : (m : Str) (xs ys : List Str) → IsSeen ys m → IsSeen (xs ++ ys) m
unfolding seen_name
IsSeen-right m [] ys h = h
IsSeen-right m (x ∷ xs) ys h = ground (arith, IsSeen-right m xs ys)

abbrev pub Grows : List Str → List Str → Type 0
Grows a b = (n : Str) → IsSeen a n → IsSeen b n

pub not_seen_anti :
    (a b : List Str) (n : Str) → Grows a b → seen_name n b ≡ false → seen_name n a ≡ false
not_seen_anti a b n f h = elim (Bool-cases (seen_name n a)) [
  | inl yes_a ↦ cc (f n yes_a, h)
  | inr no_a ↦ no_a
]

pub Grows-cons : (a b : List Str) (n : Str) → Grows a b → Grows (n ∷ a) (n ∷ b)
Grows-cons a b n f m h = elim (IsSeen-cases m n a h) [
  | inl e ↦ rw (← e) (IsSeen-here n b)
  | inr k ↦ IsSeen-there m n b (f m k)
]

-- No name is seen before, or comes twice.
abbrev pub IsFresh : List Str → List Str → Type 0
IsFresh seen [] = Unit
IsFresh seen (n ∷ ns) = (seen_name n seen ≡ false) × IsFresh (n ∷ seen) ns

pub IsFresh-anti : (a b ns : List Str) → Grows a b → IsFresh b ns → IsFresh a ns
IsFresh-anti a b [] f h = tt
IsFresh-anti a b (n ∷ ns) f h =
    (not_seen_anti a b n f h.0, IsFresh-anti (n ∷ a) (n ∷ b) ns (Grows-cons a b n f) h.1)

pub IsFresh-append :
    (a b xs ys : List Str)
    → Grows a b
    → All (IsSeen b) xs
    → IsFresh a xs
    → IsFresh b ys
    → IsFresh a (xs ++ ys)
IsFresh-append a b [] ys f g hx hy = IsFresh-anti a b ys f hy
IsFresh-append a b (x ∷ xs) ys f g hx hy =
    (hx.0, IsFresh-append (x ∷ a) b xs ys (put f g.0) g.1 hx.1 hy)
  where
    put : Grows a b → IsSeen b x → Grows (x ∷ a) b
    put f e n h = elim (IsSeen-cases n x a h) [ inl q ↦ rw (← q) e | inr k ↦ f n k ]

pub unseen-Grows {ℓ} :
    {A : Type ℓ} (a b : List Str) (raw : Dict A) → Grows a b → unseen b raw ≤ unseen a raw
unfolding unseen
unseen-Grows a b [] f = omega arith
unseen-Grows a b ((name, def) ∷ raw) f =
    ground (arith, unseen-Grows a b raw f, f name, not_seen_anti a b name f)

pub seen_nil : (m : Str) → IsSeen [] m → ⊥
unfolding seen_name
seen_nil m h = cc
