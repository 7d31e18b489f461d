-- ===== src/Profile/Compile/Pruned.antt =====
-- internal/profile/compile.go: what is asked for once a device has reported OIDs as missing.
use networkdevicereceiver.Base.{
  ◌≡◌, refl, ◌∙◌, ap, Bool, Bool-cases, inl, inr, false, not, ◌||◌, List, [], ◌∷◌, keep, Str,
  str_eq, Floats,
}
use networkdevicereceiver.Base.Dict
use networkdevicereceiver.Base.Dict.{lookup-insert}
use networkdevicereceiver.Snmp.Oid.{canonical_oid}
use networkdevicereceiver.Profile.Compile.{
  StrSet, Compiled, is_gone, filter, add_missing_oids, mark_missing, fetch_oids,
}

-- An OID is among those reported, which may have a leading dot.
abbrev pub reported_in : List Str → Str → Bool
reported_in [] o = false
reported_in (oid ∷ oids) o = str_eq (canonical_oid oid) o || reported_in oids o

abbrev pub unreported : List Str → List Str → List Str
unreported oids xs = keep (λ o. not (reported_in oids o)) xs

filter-empty : (xs : List Str) → filter [] xs ≡ xs
unfolding filter keep Dict.lookup
filter-empty [] = refl
filter-empty (x ∷ xs) = ap (λ ys. x ∷ ys) (filter-empty xs)

unreported-nothing : (xs : List Str) → unreported [] xs ≡ xs
unfolding keep
unreported-nothing [] = refl
unreported-nothing (x ∷ xs) = ap (λ ys. x ∷ ys) (unreported-nothing xs)

gone-add :
    (oids : List Str) (missing : StrSet) (o : Str)
    → is_gone (Dict.lookup o (add_missing_oids oids missing))
      ≡ (reported_in oids o || is_gone (Dict.lookup o missing))
unfolding add_missing_oids
gone-add [] missing o = refl
gone-add (oid ∷ oids) missing o =
    gone-add oids (Dict.insert (canonical_oid oid) tt missing) o
    ∙ rw (lookup-insert (canonical_oid oid) o tt missing)
        (elim (Bool-cases (str_eq (canonical_oid oid) o)) [
          | inl b ↦ elim (Bool-cases (reported_in oids o)) [ inl r ↦ rw (b, r) | inr r ↦ rw (b, r) ]
          | inr b ↦ rw b
        ])

filter-add :
    (oids : List Str) (missing : StrSet) (xs : List Str)
    → filter (add_missing_oids oids missing) xs ≡ unreported oids (filter missing xs)
unfolding filter keep
filter-add oids missing [] = refl
filter-add oids missing (x ∷ xs) =
    let rest = filter-add oids missing xs in
    elim (Bool-cases (is_gone (Dict.lookup x missing))) [
      | inl old ↦ elim (Bool-cases (reported_in oids x)) [
        | inl r ↦ rw (gone-add oids missing x, old, r) rest
        | inr r ↦ rw (gone-add oids missing x, old, r) rest
      ]
      | inr kept ↦ elim (Bool-cases (reported_in oids x)) [
        | inl r ↦ rw (gone-add oids missing x, kept, r) rest
        | inr r ↦ rw (gone-add oids missing x, kept, r) (ap (λ ys. x ∷ ys) rest)
      ]
    ]

module _ {fl : Floats} {R : Type 0} where
  fetch_oids-filter :
      (c : Compiled fl R)
      → fetch_oids c ≡ (filter c.missing c.scalar_oids, filter c.missing c.column_oids)
  fetch_oids-filter c = by_missing c.missing refl
    where
      by_missing :
          (m : StrSet)
          → c.missing ≡ m
          → fetch_oids c ≡ (filter c.missing c.scalar_oids, filter c.missing c.column_oids)
      by_missing [] e =
          unfold fetch_oids in rw (e, filter-empty c.scalar_oids, filter-empty c.column_oids) refl
      by_missing (o ∷ os) e = unfold fetch_oids in rw e refl

  -- After OIDs are reported as missing, in either spelling, what is fetched is what was fetched
  -- before, in its order, without exactly those.
  pub fetch_oids-mark_missing :
      (oids : List Str) (c : Compiled fl R)
      → fetch_oids (mark_missing oids c)
        ≡ (unreported oids (fetch_oids c).0, unreported oids (fetch_oids c).1)
  unfolding mark_missing
  fetch_oids-mark_missing oids c =
      let before = fetch_oids-filter c in
      let after = fetch_oids-filter (mark_missing oids c) in
      rw (before, after)
        (λ i.
          (filter-add oids c.missing c.scalar_oids i, filter-add oids c.missing c.column_oids i))
