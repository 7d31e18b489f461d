-- ===== src/Profile/Match/Chosen.antt =====
-- internal/profile/match.go: which profiles `Match` may choose.
use networkdevicereceiver.Base.{
  ◌≡◌, refl, sym, ap, ◌∙◌, ◌⊎◌, inl, inr, Bool-cases, true, false, not, ◌&&◌, Option, none, some,
  List, [], ◌∷◌, arith, All, Any, map, Str, is_blank, trim_prefix, trim_space, lit,
}
use networkdevicereceiver.Base.Dict
use networkdevicereceiver.Base.Sort.{sort, IsSorted, sort-IsSorted, str_less_asym}
use networkdevicereceiver.Snmp.Oid.{is_gt}
use networkdevicereceiver.Profile.Match.{
  Globs, IndexEntry, Index, or_none, claims_before, pick_sorted, pick_for_pattern, compare_patterns,
  Matched, matched, empty_id, no_profile, conflicting, is_match, better, best_of, without_conflict,
  chosen, match_profile,
}

claims_before-asym : (a b : IndexEntry) → claims_before a b ≡ true → claims_before b a ≡ false
unfolding claims_before
claims_before-asym a b h = ground (arith, h, str_less_asym a.profile b.profile)

embedded_after :
    (w : IndexEntry) (es : List IndexEntry)
    → w.user ≡ false
    → IsSorted claims_before (w ∷ es)
    → All (λ e. e.user ≡ false) es
unfolding claims_before
embedded_after w [] h s = tt
embedded_after w (e ∷ es) h (IsSorted.more k s) =
    let embedded : e.user ≡ false = ground (arith, h, k) in
    (embedded, embedded_after e es embedded s)

-- The winner is the only claim, or a user's profile before embedded ones.
abbrev pub IsClear : IndexEntry → List IndexEntry → Type 0
IsClear winner rest = (rest ≡ []) ⊎ ((winner.user ≡ true) × All (λ e. e.user ≡ false) rest)

pick_sorted-IsClear :
    (es : List IndexEntry) (winner : IndexEntry)
    → IsSorted claims_before es
    → pick_sorted es ≡ some (winner, [])
    → (rest : List IndexEntry) × (es ≡ winner ∷ rest) × IsClear winner rest
unfolding pick_sorted
pick_sorted-IsClear [] winner s e = cc e
pick_sorted-IsClear (w ∷ []) winner s e =
    let same : w ≡ winner = cc e in ([], ap (λ x. x ∷ []) same, inl refl)
pick_sorted-IsClear (w ∷ v ∷ rest) winner (IsSorted.more k s) e =
    elim (Bool-cases (w.user && not v.user)) [
      | inl clear ↦
          let embedded : v.user ≡ false = ground (arith, clear) in
          let ours : w.user ≡ true = ground (arith, clear) in
          let e' : some (w, []) ≡ some (winner, []) = rw clear at e in
          let same : w ≡ winner = cc e' in
          (
            v ∷ rest,
            ap (λ x. x ∷ v ∷ rest) same,
            inr (ap (λ x. x.user) (sym same) ∙ ours, (embedded, embedded_after v rest embedded s)),
          )
      | inr clash ↦
          let e' : some (w, map (λ c. c.profile) (w ∷ v ∷ rest)) ≡ some (winner, []) =
            rw clash at e in
          cc e'
    ]

-- A pattern that is not in conflict has one claim, or its first claim in order is a user's profile and all
-- others are embedded ones; the pattern stands for that first claim.
pub pick_for_pattern-IsClear :
    (candidates : List IndexEntry) (winner : IndexEntry)
    → pick_for_pattern candidates ≡ some (winner, [])
    → (rest : List IndexEntry) × (sort claims_before candidates ≡ winner ∷ rest)
      × IsClear winner rest
unfolding pick_for_pattern
pick_for_pattern-IsClear candidates winner e =
    pick_sorted-IsClear (sort claims_before candidates) winner
      (sort-IsSorted claims_before claims_before-asym candidates) e

module _ (globs : Globs) where
  -- An entry whose pattern matches.
  abbrev pub Matches : Str → IndexEntry → Type 0
  Matches id e = is_match globs (globs.glob e.pattern id) ≡ true

  abbrev FromBest : Str → List IndexEntry → Option IndexEntry → Option IndexEntry → Type 0
  FromBest id es best none =
      (best ≡ none) × All (λ e. is_match globs (globs.glob e.pattern id) ≡ false) es
  FromBest id es best (some e) = (best ≡ some e) ⊎ Any (λ x. (x ≡ e) × Matches id x) es

  better-one-of :
      (e : IndexEntry) (best : Option IndexEntry)
      → (better globs e best ≡ e) ⊎ (best ≡ some (better globs e best))
  better-one-of e none = inl refl
  better-one-of e (some b) = elim (Bool-cases (is_gt (compare_patterns e.pattern b.pattern))) [
    | inl more ↦ rw more (inl refl)
    | inr less ↦ rw less (inr refl)
  ]

  FromBest-match :
      (id : Str) (e : IndexEntry) (es : List IndexEntry) (best o : Option IndexEntry)
      → Matches id e
      → FromBest id es (some (better globs e best)) o
      → FromBest id (e ∷ es) best o
  FromBest-match id e es best none m h = cc (h.0)
  FromBest-match id e es best (some x) m (inr later) = inr (inr later)
  FromBest-match id e es best (some x) m (inl q) =
      let now : better globs e best ≡ x = cc q in
      elim (better-one-of e best) [
        | inl new ↦ inr (inl (sym new ∙ now, m))
        | inr old ↦ inl (old ∙ q)
      ]

  FromBest-other :
      (id : Str) (e : IndexEntry) (es : List IndexEntry) (best o : Option IndexEntry)
      → is_match globs (globs.glob e.pattern id) ≡ false
      → FromBest id es best o
      → FromBest id (e ∷ es) best o
  FromBest-other id e es best none d h = (h.0, (d, h.1))
  FromBest-other id e es best (some x) d (inl q) = inl q
  FromBest-other id e es best (some x) d (inr later) = inr (inr later)

  best_of-FromBest :
      (id : Str) (es : List IndexEntry) (best : Option IndexEntry)
      → FromBest id es best (best_of globs id es best)
  unfolding best_of
  best_of-FromBest id [] none = (refl, tt)
  best_of-FromBest id [] (some b) = inl refl
  best_of-FromBest id (e ∷ es) best = elim (Bool-cases (is_match globs (globs.glob e.pattern id))) [
    | inl m ↦ rw m (
        FromBest-match id e es best (best_of globs id es (some (better globs e best))) m
          (best_of-FromBest id es (some (better globs e best))))
    | inr d ↦
        rw d
          (FromBest-other id e es best (best_of globs id es best) d (best_of-FromBest id es best))
  ]

  -- The identifier that is matched.
  abbrev pub trimmed_id : Str → Str
  trimmed_id sys_object_id = trim_space (trim_prefix sys_object_id (lit "."))

  abbrev pub Explains : Index → Str → Matched → Type 0
  Explains idx id (matched name) =
      (e : IndexEntry) × Any (λ x. (x ≡ e) × Matches id x) idx.entries
      × (e.profile ≡ name)
      × (or_none (Dict.lookup e.pattern idx.conflicts) ≡ [])
  Explains idx id empty_id = is_blank id ≡ true
  Explains idx id (no_profile x) =
      All (λ e. is_match globs (globs.glob e.pattern id) ≡ false) idx.entries
  Explains idx id (conflicting pattern names) =
      (e : IndexEntry) × Any (λ x. (x ≡ e) × Matches id x) idx.entries
      × (e.pattern ≡ pattern)
      × (or_none (Dict.lookup e.pattern idx.conflicts) ≡ names)

  chosen-Explains :
      (idx : Index) (id : Str) (o : Option IndexEntry)
      → FromBest id idx.entries none o
      → Explains idx id (chosen globs id idx o)
  chosen-Explains idx id none h = h.1
  chosen-Explains idx id (some e) (inl q) = cc q
  chosen-Explains idx id (some e) (inr here) =
      clash (or_none (Dict.lookup e.pattern idx.conflicts)) refl
    where
      clash :
          (names : List Str)
          → or_none (Dict.lookup e.pattern idx.conflicts) ≡ names
          → Explains idx id (without_conflict globs e names)
      clash [] q = (e, here, refl, q)
      clash (n ∷ ns) q = (e, here, refl, q)

  -- A profile that is matched is that of an entry whose pattern matches and is not in conflict; that there is
  -- none is said only if no pattern matches, and a conflict only of a pattern that matches and has one.
  pub match_profile-Explains :
      (idx : Index) (sys_object_id : Str)
      → Explains idx (trimmed_id sys_object_id) (match_profile globs idx sys_object_id)
  unfolding match_profile
  match_profile-Explains idx sys_object_id =
      let id = trimmed_id sys_object_id in
      elim (Bool-cases (is_blank id)) [
        | inl blank ↦ rw blank blank
        | inr told ↦ rw told (
            chosen-Explains idx id (best_of globs id idx.entries none)
              (best_of-FromBest id idx.entries none))
      ]
