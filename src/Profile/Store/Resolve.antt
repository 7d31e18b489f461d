-- ===== src/Profile/Store/Resolve.antt =====
-- internal/profile/store.go: `expand` from start to end, and `resolveLocked`.
use networkdevicereceiver.Base.{
  ℕ, zero, suc, ◌<◌, ◌≡◌, refl, ap, subst, ◌∙◌, inl, inr, Bool-cases, Option-cases, false, none,
  some, List, [], ◌∷◌, ◌++◌, arith, All, All-append, Any, Str, Floats,
}
use networkdevicereceiver.Base.Dict
use networkdevicereceiver.Base.Dict.{Dict}
use networkdevicereceiver.Profile.Definition.{ProfileDefinition}
use networkdevicereceiver.Profile.Store.{
  Expansion, done, into, visit, visit_parent, expand, expand_fuel, seeded, finish, resolve_base,
  resolve_raw, seen_name, profile_name, merge, Resolved, resolved, unknown_parents,
}
use networkdevicereceiver.Profile.Store.Seen.{
  unseen, unseen-le, unseen_mono, unseen_less, unseen-Grows, IsSeen, IsSeen-cases, seen_nil,
  IsFresh,
}
use networkdevicereceiver.Profile.Store.Expand.{
  IsExpanded, nothing-IsExpanded, seen-IsExpanded, unknown-IsExpanded, parent-IsExpanded, marked_as,
  RefSeen, merge_names, Walk, at_end, again, lost, up,
}
use networkdevicereceiver.Profile.Normalize.{normalize}

module _ {fl : Floats} (raw : Dict (ProfileDefinition fl)) where
  module _ (ref : Str) (s : Expansion fl) where
    visit_seen : IsSeen s.seen (profile_name ref) → visit raw ref s ≡ done s
    unfolding visit
    visit_seen old = rw old

    visit_unknown :
        seen_name (profile_name ref) s.seen ≡ false
        → Dict.lookup (profile_name ref) raw ≡ none
        → visit raw ref s
          ≡ done (record (marked_as raw (profile_name ref) s) { unknown = s.unknown ++ ref ∷ [] })
    unfolding visit
    visit_unknown new missing = rw new (rw (missing, visit_parent))

    visit_known :
        (parent : ProfileDefinition fl)
        → seen_name (profile_name ref) s.seen ≡ false
        → Dict.lookup (profile_name ref) raw ≡ some parent
        → visit raw ref s
          ≡ into parent (record (marked_as raw (profile_name ref) s) { dst = merge s.dst parent })
    unfolding visit
    visit_known parent new found = rw new (rw (found, visit_parent))

  -- One turn of the loop of `expand`, once what the reference does is known.
  module _ (fuel : ℕ) (ref : Str) (refs : List Str) (s : Expansion fl) where
    expand_done :
        (s₁ : Expansion fl)
        → visit raw ref s ≡ done s₁
        → expand raw (suc fuel) (ref ∷ refs) s ≡ expand raw (suc fuel) refs s₁
    unfolding expand
    expand_done s₁ e = rw (e, expand)

    expand_into :
        (parent : ProfileDefinition fl) (s₁ s₂ : Expansion fl)
        → visit raw ref s ≡ into parent s₁
        → expand raw fuel parent.extends s₁ ≡ some s₂
        → expand raw (suc fuel) (ref ∷ refs) s ≡ expand raw (suc fuel) refs s₂
    unfolding expand
    expand_into parent s₁ s₂ e k = rw (e, expand) (rw (k, expand))

  -- With more fuel than there are profiles left to see, the expansion ends.
  expand_total :
      (fuel : ℕ) (refs : List Str) (s : Expansion fl)
      → unseen s.seen raw < fuel
      → (s' : Expansion fl) × (expand raw fuel refs s ≡ some s') × IsExpanded raw refs s s'
  unfolding expand
  expand_total fuel [] s h = (s, refl, nothing-IsExpanded raw s)
  expand_total zero (ref ∷ refs) s h = absurd (omega arith)
  expand_total (suc fuel) (ref ∷ refs) s h =
      let name = profile_name ref in
      elim (Bool-cases (seen_name name s.seen)) [
        | inl old ↦
            let (s', e, x) = expand_total (suc fuel) refs s h in
            (
              s',
              expand_done fuel ref refs s s (visit_seen ref s old) ∙ e,
              seen-IsExpanded raw ref refs s s' old x,
            )
        | inr new ↦ elim (Option-cases (Dict.lookup name raw)) [
          | inl missing ↦
              let s₁ = record (marked_as raw name s) { unknown = s.unknown ++ ref ∷ [] } in
              let (s', e, x) =
                expand_total (suc fuel) refs s₁ (omega (arith, unseen_mono name s.seen raw)) in
              (
                s',
                expand_done fuel ref refs s s₁ (visit_unknown ref s new missing) ∙ e,
                unknown-IsExpanded raw ref refs s s' new missing x,
              )
          | inr (parent, found) ↦
              let s₁ = record (marked_as raw name s) { dst = merge s.dst parent } in
              let less = unseen_less name parent s.seen raw new found in
              let (s₂, e₂, x) = expand_total fuel parent.extends s₁ (omega arith) in
              let (s', e, y) =
                expand_total (suc fuel) refs s₂
                  (omega (arith, unseen-Grows s₁.seen s₂.seen raw x.grows)) in
              (
                s',
                expand_into fuel ref refs s parent s₁ s₂ (visit_known ref s parent new found) e₂
                    ∙ e,
                parent-IsExpanded raw ref refs parent s s₂ s' new found x y,
              )
        ]
      ]

  -- A name that is reached from references by going up through `extends`.
  pub data Reaches (refs : List Str) : Str → Type 0 where
    direct : (ref : Str) → Any (λ r. r ≡ ref) refs → Reaches refs (profile_name ref)
    above :
        {n : Str} (def : ProfileDefinition fl) (ref : Str)
        → Reaches refs n
        → Dict.lookup n raw ≡ some def
        → Any (λ r. r ≡ ref) def.extends
        → Reaches refs (profile_name ref)

  at_ref :
      (seen : List Str) (ref : Str) (refs : List Str)
      → All (RefSeen raw seen) refs
      → Any (λ r. r ≡ ref) refs
      → RefSeen raw seen ref
  at_ref seen ref [] h k = absurd k
  at_ref seen ref (r ∷ refs) h (inl e) = subst (RefSeen raw seen) e h.0
  at_ref seen ref (r ∷ refs) h (inr k) = at_ref seen ref refs h.1 k

  -- The parents of a seen profile are seen: the profile itself at the root, by what was visited, and
  -- any other by what the expansion closes.
  parents-seen :
      (name : Str) (base : ProfileDefinition fl) (s' : Expansion fl)
      → IsExpanded raw base.extends (seeded raw name base) s'
      → Dict.lookup name raw ≡ some base
      → (m : Str) (def : ProfileDefinition fl) → IsSeen s'.seen m
      → Dict.lookup m raw ≡ some def
      → All (RefSeen raw s'.seen) def.extends
  parents-seen name base s' x b m def seen e = elim (Bool-cases (seen_name m (name ∷ []))) [
    | inl own ↦
        let q : name ≡ m = only m name own in
        let same : base ≡ def = cc (b, e, ap (λ n. Dict.lookup n raw) q) in
        subst (λ d. All (RefSeen raw s'.seen) d.extends) same x.visited
    | inr other ↦ (x.closed m def seen other e).1
  ]
    where
      only : (m n : Str) → IsSeen (n ∷ []) m → n ≡ m
      only m n h = elim (IsSeen-cases m n [] h) [ inl q ↦ q | inr k ↦ absurd (seen_nil m k) ]

  reached-seen :
      (name : Str) (base : ProfileDefinition fl) (s' : Expansion fl)
      → IsExpanded raw base.extends (seeded raw name base) s'
      → Dict.lookup name raw ≡ some base
      → (n : Str) → Reaches base.extends n
      → IsSeen s'.seen n
  reached-seen name base s' x b n (direct ref k) = at_ref s'.seen ref base.extends x.visited k
  reached-seen name base s' x b n (above {n = m} def ref r e k) =
      at_ref s'.seen ref def.extends
        (parents-seen name base s' x b m def (reached-seen name base s' x b m r) e) k

  abbrev HasProfile : Str → Type 0
  HasProfile n = (def : ProfileDefinition fl) × (Dict.lookup n raw ≡ some def)

  abbrev HasNone : Str → Type 0
  HasNone ref = Dict.lookup (profile_name ref) raw ≡ none

  -- The names of a walk have profiles, and the references that it is missing have none.
  walk-known :
      {seen refs names missing seen' : List Str}
      → Walk raw seen refs names missing seen'
      → All HasProfile names × All HasNone missing
  walk-known at_end = (tt, tt)
  walk-known (again ref h w) = walk-known w
  walk-known (lost ref new none_there w) = ((walk-known w).0, (none_there, (walk-known w).1))
  walk-known (up {names} {missing} {names'} {missing'} ref parent new found w v) = (
    ((parent, found), All-append HasProfile names names' (walk-known w).0 (walk-known v).0),
    All-append HasNone missing missing' (walk-known w).1 (walk-known v).1,
  )

  -- The content, unless a reference has no profile.
  abbrev pub answer_of : ProfileDefinition fl → List Str → Resolved raw
  answer_of content [] = resolved (normalize fl content)
  answer_of content (ref ∷ refs) = unknown_parents (ref ∷ refs)

  finish-answer :
      (content : ProfileDefinition fl) (seen unknown : List Str)
      → finish raw (some (record { dst = content; seen = seen; unknown = unknown }))
        ≡ some (answer_of content unknown)
  finish-answer content seen [] = refl
  finish-answer content seen (ref ∷ refs) = refl

  -- What `Resolve` answers for a profile that is there: its own content with that of `names` merged in,
  -- in their order, or the references `unknown`, where a walk up from the profile gives both.
  pub record Merges (name : Str) (base : ProfileDefinition fl) : Type 0 where
    pub names : List Str
    pub unknown : List Str
    pub seen : List Str
    pub walk : Walk raw (name ∷ []) base.extends names unknown seen
    pub answer : resolve_raw raw name ≡ some (answer_of (merge_names raw names base) unknown)
    pub known : All HasProfile names
    -- only what has no profile is an error
    pub none_there : All HasNone unknown
    -- no profile is merged twice, and none into itself
    pub once : IsFresh (name ∷ []) names
    -- every ancestor is merged
    pub all :
        (n : Str) (def : ProfileDefinition fl)
        → Reaches base.extends n
        → Dict.lookup n raw ≡ some def
        → seen_name n (name ∷ []) ≡ false
        → IsSeen names n

  answered :
      (name : Str) (base : ProfileDefinition fl) (s' : Expansion fl)
      → Dict.lookup name raw ≡ some base
      → expand raw (expand_fuel raw) base.extends (seeded raw name base) ≡ some s'
      → resolve_raw raw name ≡ some (answer_of s'.dst s'.unknown)
  unfolding resolve_raw resolve_base
  answered name base s' b e = rw (b, resolve_base) (rw e (finish-answer s'.dst s'.seen s'.unknown))

  -- For every set of profiles, cyclic or not, resolving a profile that is there ends. A walk up its
  -- references, depth first, that passes over what was seen gives names and references: if each reference
  -- has a profile, the answer is the profile with those of the names merged into it, in that order, each
  -- once and never its own again, every ancestor that has a profile among them; otherwise it is the
  -- references of the walk that have no profile, and only such.
  pub resolve-Merges :
      (name : Str) (base : ProfileDefinition fl)
      → Dict.lookup name raw ≡ some base
      → Merges name base
  resolve-Merges name base b =
      let (s', e, x) =
        expand_total (expand_fuel raw) base.extends (seeded raw name base)
          (omega (arith, unseen-le (name ∷ []) raw)) in
      record {
        names = x.names;
        unknown = x.missing;
        seen = s'.seen;
        walk = x.walk;
        answer =
            answered name base s' b e
            ∙ ap (λ d. some (answer_of d s'.unknown)) x.content
            ∙ ap (λ u. some (answer_of (merge_names raw x.names base) u)) x.reported;
        known = (walk-known x.walk).0;
        none_there = (walk-known x.walk).1;
        once = x.fresh;
        all = λ n def r k other. (x.closed n def (reached-seen name base s' x b n r) other k).0;
      }
