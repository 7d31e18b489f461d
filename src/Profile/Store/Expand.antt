-- ===== src/Profile/Store/Expand.antt =====
-- internal/profile/store.go: what expanding a list of references does, from what each reference does.
use mathlib.Core.List.{append-nil, append_assoc}
use networkdevicereceiver.Base.{
  ◌≡◌, refl, ap, sym, subst, ◌∙◌, ◌⊎◌, inl, inr, Bool-cases, true, false, Option, none, some, List,
  [], ◌∷◌, ◌++◌, All, All-append, All-imp, Str, Floats,
}
use networkdevicereceiver.Base.Dict
use networkdevicereceiver.Base.Dict.{Dict}
use networkdevicereceiver.Profile.Definition.{ProfileDefinition}
use networkdevicereceiver.Profile.Store.{Expansion, seen_name, profile_name, merge}
use networkdevicereceiver.Profile.Store.Seen.{
  IsSeen, IsSeen-here, IsSeen-there, IsSeen-cases, IsSeen-left, IsSeen-right, Grows, IsFresh,
  IsFresh-anti, IsFresh-append,
}

module _ {fl : Floats} (raw : Dict (ProfileDefinition fl)) where
  abbrev pub merge_known :
      Option (ProfileDefinition fl) → ProfileDefinition fl → ProfileDefinition fl
  merge_known none d = d
  merge_known (some parent) d = merge d parent

  -- Profiles merged one after the other.
  pub merge_names : List Str → ProfileDefinition fl → ProfileDefinition fl
  merge_names [] d = d
  merge_names (n ∷ ns) d = merge_names ns (merge_known (Dict.lookup n raw) d)

  merge_names-append :
      (xs ys : List Str) (d : ProfileDefinition fl)
      → merge_names (xs ++ ys) d ≡ merge_names ys (merge_names xs d)
  unfolding merge_names
  merge_names-append [] ys d = refl
  merge_names-append (x ∷ xs) ys d = merge_names-append xs ys (merge_known (Dict.lookup x raw) d)

  merge_names-known :
      (n : Str) (ns : List Str) (parent d : ProfileDefinition fl)
      → Dict.lookup n raw ≡ some parent
      → merge_names (n ∷ ns) d ≡ merge_names ns (merge d parent)
  unfolding merge_names
  merge_names-known n ns parent d e = rw e

  abbrev pub RefSeen : List Str → Str → Type 0
  RefSeen seen ref = IsSeen seen (profile_name ref)

  -- Depth first along `extends`: from the names seen and the references, the names of the parents in the
  -- order in which they are reached, each before its own parents; the references without a profile; and the
  -- names seen at the end. A name that was seen is passed over.
  pub data Walk : List Str → List Str → List Str → List Str → List Str → Type 0 where
    at_end : {seen : List Str} → Walk seen [] [] [] seen
    again :
        {seen refs names missing seen' : List Str} (ref : Str)
        → IsSeen seen (profile_name ref)
        → Walk seen refs names missing seen'
        → Walk seen (ref ∷ refs) names missing seen'
    lost :
        {seen refs names missing seen' : List Str} (ref : Str)
        → seen_name (profile_name ref) seen ≡ false
        → Dict.lookup (profile_name ref) raw ≡ none
        → Walk (profile_name ref ∷ seen) refs names missing seen'
        → Walk seen (ref ∷ refs) names (ref ∷ missing) seen'
    up :
        {seen refs names missing seen₂ names' missing' seen' : List Str} (ref : Str)
        (parent : ProfileDefinition fl)
        → seen_name (profile_name ref) seen ≡ false
        → Dict.lookup (profile_name ref) raw ≡ some parent
        → Walk (profile_name ref ∷ seen) parent.extends names missing seen₂
        → Walk seen₂ refs names' missing' seen'
        → Walk seen (ref ∷ refs) (profile_name ref ∷ (names ++ names')) (missing ++ missing') seen'

  -- What expanding `refs` does: the known profiles that it sees are merged, each once, and the
  -- references and the parents of all that it sees are seen.
  pub record IsExpanded (refs : List Str) (s s' : Expansion fl) : Type 0 where
    pub names : List Str
    pub missing : List Str
    pub walk : Walk s.seen refs names missing s'.seen
    pub reported : s'.unknown ≡ s.unknown ++ missing
    pub content : s'.dst ≡ merge_names names s.dst
    pub fresh : IsFresh s.seen names
    pub grows : Grows s.seen s'.seen
    pub marked : All (IsSeen s'.seen) names
    pub visited : All (RefSeen s'.seen) refs
    pub closed :
        (n : Str) (def : ProfileDefinition fl)
        → IsSeen s'.seen n
        → seen_name n s.seen ≡ false
        → Dict.lookup n raw ≡ some def
        → IsSeen names n × All (RefSeen s'.seen) def.extends

  All-Grows :
      (a b : List Str) (refs : List Str) → Grows a b → All (RefSeen a) refs → All (RefSeen b) refs
  All-Grows a b refs f h = All-imp (RefSeen a) (RefSeen b) refs (λ r. f (profile_name r)) h

  pub nothing-IsExpanded : (s : Expansion fl) → IsExpanded [] s s
  unfolding merge_names
  nothing-IsExpanded s = record {
    names = [];
    missing = [];
    walk = at_end;
    reported = sym (append-nil s.unknown);
    content = refl;
    fresh = tt;
    grows = λ n h. h;
    marked = tt;
    visited = tt;
    closed = λ n def h k e. cc;
  }

  -- A reference that was seen before
  pub seen-IsExpanded :
      (ref : Str) (refs : List Str) (s s' : Expansion fl)
      → IsSeen s.seen (profile_name ref)
      → IsExpanded refs s s'
      → IsExpanded (ref ∷ refs) s s'
  seen-IsExpanded ref refs s s' h x = record {
    names = x.names;
    missing = x.missing;
    walk = again ref h x.walk;
    reported = x.reported;
    content = x.content;
    fresh = x.fresh;
    grows = x.grows;
    marked = x.marked;
    visited = (x.grows (profile_name ref) h, x.visited);
    closed = x.closed;
  }

  abbrev pub marked_as : Str → Expansion fl → Expansion fl
  marked_as name s = record s { seen = name ∷ s.seen }

  -- A reference to a profile that is not there
  pub unknown-IsExpanded :
      (ref : Str) (refs : List Str) (s s' : Expansion fl)
      → seen_name (profile_name ref) s.seen ≡ false
      → Dict.lookup (profile_name ref) raw ≡ none
      → IsExpanded refs
          (record (marked_as (profile_name ref) s) { unknown = s.unknown ++ ref ∷ [] })
          s'
      → IsExpanded (ref ∷ refs) s s'
  unknown-IsExpanded ref refs s s' unseen h x = record {
    names = x.names;
    missing = ref ∷ x.missing;
    walk = lost ref unseen h x.walk;
    reported = x.reported ∙ append_assoc s.unknown (ref ∷ []) x.missing;
    content = x.content;
    fresh = IsFresh-anti s.seen (name ∷ s.seen) x.names (λ n. IsSeen-there n name s.seen) x.fresh;
    grows = λ n k. x.grows n (IsSeen-there n name s.seen k);
    marked = x.marked;
    visited = (x.grows name (IsSeen-here name s.seen), x.visited);
    closed = λ n def k new e.
        x.closed n def k (still_new n new (λ q. cc (h, e, ap (λ m. Dict.lookup m raw) q))) e;
  }
    where
      name : Str
      name = profile_name ref

      still_new :
          (n : Str)
          → seen_name n s.seen ≡ false
          → ((name ≡ n) → ⊥)
          → seen_name n (name ∷ s.seen) ≡ false
      still_new n new apart = elim (Bool-cases (seen_name n (name ∷ s.seen))) [
        | inl b ↦ elim (IsSeen-cases n name s.seen b) [
          | inl q ↦ absurd (apart q)
          | inr k ↦ cc (k, new)
        ]
        | inr b ↦ b
      ]

  -- A reference to a parent, which is merged and expanded before the rest
  pub parent-IsExpanded :
      (ref : Str) (refs : List Str) (parent : ProfileDefinition fl) (s s₂ s' : Expansion fl)
      → seen_name (profile_name ref) s.seen ≡ false
      → Dict.lookup (profile_name ref) raw ≡ some parent
      → IsExpanded parent.extends
          (record (marked_as (profile_name ref) s) { dst = merge s.dst parent })
          s₂
      → IsExpanded refs s₂ s'
      → IsExpanded (ref ∷ refs) s s'
  parent-IsExpanded ref refs parent s s₂ s' new found x y = record {
    names = name ∷ (x.names ++ y.names);
    missing = x.missing ++ y.missing;
    walk = up ref parent new found x.walk y.walk;
    reported =
        y.reported
        ∙ ap (λ l. l ++ y.missing) x.reported
        ∙ append_assoc s.unknown x.missing y.missing;
    content = whole;
    fresh = (
      new,
      IsFresh-append (name ∷ s.seen) s₂.seen x.names y.names x.grows x.marked x.fresh y.fresh,
    );
    grows = λ n k. y.grows n (x.grows n (IsSeen-there n name s.seen k));
    marked = (
      here,
      All-append (IsSeen s'.seen) x.names y.names
          (All-imp (IsSeen s₂.seen) (IsSeen s'.seen) x.names y.grows x.marked) y.marked,
    );
    visited = (here, y.visited);
    closed = λ n def k fresh_n e. closed_at n def k fresh_n e (Bool-cases (seen_name n s₂.seen));
  }
    where
      name : Str
      name = profile_name ref

      here : IsSeen s'.seen name
      here = y.grows name (x.grows name (IsSeen-here name s.seen))

      whole : s'.dst ≡ merge_names (name ∷ (x.names ++ y.names)) s.dst
      whole =
          y.content
          ∙ ap (merge_names y.names) x.content
          ∙ sym (merge_names-append x.names y.names (merge s.dst parent))
          ∙ sym (merge_names-known name (x.names ++ y.names) parent s.dst found)

      early :
          (n : Str) (def : ProfileDefinition fl)
          → IsSeen s₂.seen n
          → seen_name n s.seen ≡ false
          → Dict.lookup n raw ≡ some def
          → (seen_name n (name ∷ s.seen) ≡ true) ⊎ (seen_name n (name ∷ s.seen) ≡ false)
          → IsSeen (name ∷ (x.names ++ y.names)) n × All (RefSeen s'.seen) def.extends
      early n def k fresh_n e (inl b) = elim (IsSeen-cases n name s.seen b) [
        | inl q ↦
            let same : parent ≡ def = cc (found, e, ap (λ m. Dict.lookup m raw) q) in
            (
              rw (← q) (IsSeen-here name (x.names ++ y.names)),
              subst (λ d. All (RefSeen s'.seen) d.extends) same
                  (All-Grows s₂.seen s'.seen parent.extends y.grows x.visited),
            )
        | inr old ↦ cc (old, fresh_n)
      ]
      early n def k fresh_n e (inr b) =
          let (listed, parents) = x.closed n def k b e in
          (
            IsSeen-there n name (x.names ++ y.names) (IsSeen-left n x.names y.names listed),
            All-Grows s₂.seen s'.seen def.extends y.grows parents,
          )

      closed_at :
          (n : Str) (def : ProfileDefinition fl)
          → IsSeen s'.seen n
          → seen_name n s.seen ≡ false
          → Dict.lookup n raw ≡ some def
          → (seen_name n s₂.seen ≡ true) ⊎ (seen_name n s₂.seen ≡ false)
          → IsSeen (name ∷ (x.names ++ y.names)) n × All (RefSeen s'.seen) def.extends
      closed_at n def k fresh_n e (inl b) =
          early n def b fresh_n e (Bool-cases (seen_name n (name ∷ s.seen)))
      closed_at n def k fresh_n e (inr b) =
          let (listed, parents) = y.closed n def k b e in
          (
            IsSeen-there n name (x.names ++ y.names) (IsSeen-right n x.names y.names listed),
            parents,
          )
