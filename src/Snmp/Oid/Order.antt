-- ===== src/Snmp/Oid/Order.antt =====
-- internal/snmp/oid.go: `CompareOIDs` as an order, and the order that SNMP walks in.
use networkdevicereceiver.Base.{
  ℕ, ◌≡◌, refl, inl, inr, ap, Bool-cases, true, Option, none, some, List, [], ◌∷◌, ◌∙◌, compare,
  Ordering, arith, Str, str_eq, str_eq_iff, str_compare, split,
}
use networkdevicereceiver.Snmp.Oid.{
  parse_uint, compare_arc, compare_arcs, compare_oids, canonical_oid, oid_less,
}

abbrev pub flip : Ordering → Ordering
flip Ordering.lt = Ordering.gt
flip Ordering.eq = Ordering.eq
flip Ordering.gt = Ordering.lt

flip-compare : (a b : ℕ) → compare a b ≡ flip (compare b a)
flip-compare a b = ground arith

flip-str_compare : (a b : Str) → str_compare a b ≡ flip (str_compare b a)
unfolding str_compare
flip-str_compare [] [] = refl
flip-str_compare [] (b ∷ bs) = refl
flip-str_compare (a ∷ s) [] = refl
flip-str_compare (a ∷ s) (b ∷ t) = ground (arith, flip-compare a b, flip-str_compare s t)

flip-compare_arc :
    (x y : Option ℕ) (a b : Str) (r q : Ordering)
    → r ≡ flip q
    → compare_arc x y a b r ≡ flip (compare_arc y x b a q)
unfolding compare_arc
flip-compare_arc (some x) (some y) a b r q h = ground (arith, flip-compare x y)
flip-compare_arc (some x) none a b r q h = flip-str_compare a b
flip-compare_arc none (some y) a b r q h = flip-str_compare a b
flip-compare_arc none none a b r q h = flip-str_compare a b

flip-compare_arcs : (as' bs : List Str) → compare_arcs as' bs ≡ flip (compare_arcs bs as')
unfolding compare_arcs
flip-compare_arcs [] [] = refl
flip-compare_arcs [] (b ∷ bs) = refl
flip-compare_arcs (a ∷ as') [] = refl
flip-compare_arcs (a ∷ as') (b ∷ bs) = ground (
  arith,
  str_eq_iff a b,
  str_eq_iff b a,
  flip-compare_arcs as' bs,
  flip-compare_arc (parse_uint a) (parse_uint b) a b (compare_arcs as' bs) (compare_arcs bs as'),
)

-- Comparing two texts the other way round gives the opposite answer, whatever the texts are.
pub compare_oids-flip : (a b : Str) → compare_oids a b ≡ flip (compare_oids b a)
unfolding compare_oids
compare_oids-flip a b =
    flip-compare_arcs (split b'.' (canonical_oid a)) (split b'.' (canonical_oid b))

-- The order of SNMP: sequences of numbers, the first difference deciding, a prefix before what
-- extends it.
pub numeric : List ℕ → List ℕ → Ordering
numeric [] [] = Ordering.eq
numeric [] (m ∷ ms) = Ordering.lt
numeric (n ∷ ns) [] = Ordering.gt
numeric (n ∷ ns) (m ∷ ms) = elim (compare n m) [
  | Ordering.lt ↦ Ordering.lt
  | Ordering.eq ↦ numeric ns ms
  | Ordering.gt ↦ Ordering.gt
]

-- The arcs are numbers, and these are they.
abbrev pub ReadsAs : List Str → List ℕ → Type 0
ReadsAs [] [] = Unit
ReadsAs [] (n ∷ ns) = ⊥
ReadsAs (a ∷ as') [] = ⊥
ReadsAs (a ∷ as') (n ∷ ns) = (parse_uint a ≡ some n) × ReadsAs as' ns

compare_arcs-numeric :
    (as' bs : List Str) (ns ms : List ℕ)
    → ReadsAs as' ns
    → ReadsAs bs ms
    → compare_arcs as' bs ≡ numeric ns ms
unfolding compare_arcs compare_arc numeric
compare_arcs-numeric [] [] [] [] h k = refl
compare_arcs-numeric [] [] (n ∷ ns) ms h k = absurd h
compare_arcs-numeric [] [] [] (m ∷ ms) h k = absurd k
compare_arcs-numeric [] (b ∷ bs) [] (m ∷ ms) h k = refl
compare_arcs-numeric [] (b ∷ bs) (n ∷ ns) ms h k = absurd h
compare_arcs-numeric [] (b ∷ bs) [] [] h k = absurd k
compare_arcs-numeric (a ∷ as') [] (n ∷ ns) [] h k = refl
compare_arcs-numeric (a ∷ as') [] [] ms h k = absurd h
compare_arcs-numeric (a ∷ as') [] (n ∷ ns) (m ∷ ms) h k = absurd k
compare_arcs-numeric (a ∷ as') (b ∷ bs) [] ms h k = absurd h
compare_arcs-numeric (a ∷ as') (b ∷ bs) (n ∷ ns) [] h k = absurd k
compare_arcs-numeric (a ∷ as') (b ∷ bs) (n ∷ ns) (m ∷ ms) h k = elim (Bool-cases (str_eq a b)) [
  | inl same ↦
      let e = (str_eq_iff a b).0 same in
      let nm : some n ≡ some m = cc (h.0, k.0, ap parse_uint e) in
      rw same (compare_arcs-numeric as' bs ns ms h.1 k.1 ∙ ground (arith, nm))
  | inr other ↦ rw (other, h.0, k.0) (rw (compare_arcs-numeric as' bs ns ms h.1 k.1))
]

abbrev pub IsOid : Str → List ℕ → Type 0
IsOid oid ns = ReadsAs (split b'.' (canonical_oid oid)) ns

-- On OIDs whose arcs are numbers below 2^64, `CompareOIDs` is the numeric order of the arcs.
pub compare_oids-numeric :
    (a b : Str) (ns ms : List ℕ) → IsOid a ns → IsOid b ms → compare_oids a b ≡ numeric ns ms
unfolding compare_oids
compare_oids-numeric a b ns ms =
    compare_arcs-numeric (split b'.' (canonical_oid a)) (split b'.' (canonical_oid b)) ns ms

pub numeric_trans :
    (xs ys zs : List ℕ)
    → numeric xs ys ≡ Ordering.lt
    → numeric ys zs ≡ Ordering.lt
    → numeric xs zs ≡ Ordering.lt
unfolding numeric
numeric_trans [] [] zs h k = cc
numeric_trans [] (y ∷ ys) [] h k = cc
numeric_trans [] (y ∷ ys) (z ∷ zs) h k = refl
numeric_trans (x ∷ xs) [] zs h k = cc
numeric_trans (x ∷ xs) (y ∷ ys) [] h k = cc
numeric_trans (x ∷ xs) (y ∷ ys) (z ∷ zs) h k = ground (arith, numeric_trans xs ys zs)

less-numeric :
    (a b : Str) (ns ms : List ℕ)
    → IsOid a ns
    → IsOid b ms
    → oid_less a b ≡ true
    → numeric ns ms ≡ Ordering.lt
unfolding oid_less
less-numeric a b ns ms ha hb h = ground (arith, compare_oids-numeric a b ns ms ha hb)

-- On OIDs whose arcs are numbers below 2^64, being less is transitive.
pub oid_less_trans :
    (a b c : Str) (ns ms ks : List ℕ)
    → IsOid a ns
    → IsOid b ms
    → IsOid c ks
    → oid_less a b ≡ true
    → oid_less b c ≡ true
    → oid_less a c ≡ true
unfolding oid_less
oid_less_trans a b c ns ms ks ha hb hc h k =
    let lt =
      numeric_trans ns ms ks (less-numeric a b ns ms ha hb h) (less-numeric b c ms ks hb hc k) in
    rw (compare_oids-numeric a c ns ks ha hc) (rw lt)
