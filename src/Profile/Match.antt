-- ===== src/Profile/Match.antt =====
-- internal/profile/match.go: the index from sysObjectID patterns to profiles, and the choice among them.
-- `Globs` is filepath.Match, which fails on a malformed pattern.
pub mod Chosen
use networkdevicereceiver.Base.{
  ℕ, ◌≡◌, Bool, true, false, not, ◌&&◌, ◌==◌, Option, none, some, List, [], ◌∷◌, ◌++◌, map, ltb,
  if◌then◌else◌, length, is_empty, Str, lit, str_eq, str_compare, is_blank, trim_prefix, trim_space,
  split, contains_byte, Ordering, compare, Floats,
}
use networkdevicereceiver.Base.Dict
use networkdevicereceiver.Base.Dict.{Dict}
use networkdevicereceiver.Base.Sort.{sort, str_less}
use networkdevicereceiver.Profile.Definition.{ProfileDefinition}
use networkdevicereceiver.Profile.Compile.{StrSet}
use networkdevicereceiver.Profile.Store.{is_abstract}
use networkdevicereceiver.Snmp.Oid.{is_gt}

pub record Globs : Type 0 where
  pub glob : Str → Str → Option Bool

pub record IndexEntry : Type 0 where
  pub pattern : Str
  pub profile : Str
  pub user : Bool

pub record Index : Type 0 where
  pub entries : List IndexEntry
  pub conflicts : Dict (List Str)

abbrev pub or_none {ℓ} : {A : Type ℓ} → Option (List A) → List A
or_none none = []
or_none (some xs) = xs

-- byPattern[pattern] = append(byPattern[pattern], e)
abbrev pub append_entry : IndexEntry → Dict (List IndexEntry) → Dict (List IndexEntry)
append_entry e m = Dict.insert e.pattern (or_none (Dict.lookup e.pattern m) ++ e ∷ []) m

unfoldable pub add_patterns :
    Str → Bool → List Str → Dict (List IndexEntry) → Dict (List IndexEntry)
add_patterns name user [] m = m
add_patterns name user (p ∷ ps) m =
    let pattern = trim_space p in
    add_patterns name user ps (
      if is_blank pattern
      then m
      else append_entry (record { pattern = pattern; profile = name; user = user }) m)

abbrev is_user : Option (Unit {0}) → Bool
is_user none = false
is_user (some tt) = true

unfoldable pub patterns_of :
    {fl : Floats}
    → StrSet
    → Dict (ProfileDefinition fl)
    → Dict (List IndexEntry)
    → Dict (List IndexEntry)
unfolding add_patterns
patterns_of from_user [] m = m
patterns_of from_user ((name, def) ∷ raw) m = patterns_of from_user raw (
    if is_abstract name
    then m
    else add_patterns name (is_user (Dict.lookup name from_user)) def.sys_object_ids m)

-- A user's profile before the embedded ones, and then by name.
unfoldable pub claims_before : IndexEntry → IndexEntry → Bool
claims_before a b =
    if a.user
    then (if b.user then str_less a.profile b.profile else true)
    else if b.user
    then false
    else str_less a.profile b.profile

-- pickForPattern, on the sorted candidates; there is at least one.
unfoldable pub pick_sorted : List IndexEntry → Option (IndexEntry × List Str)
pick_sorted [] = none
pick_sorted (winner ∷ []) = some (winner, [])
pick_sorted (winner ∷ second ∷ rest) =
    if winner.user && not second.user
    then some (winner, [])
    else some (winner, map (λ c. c.profile) (winner ∷ second ∷ rest))

unfoldable pub pick_for_pattern : List IndexEntry → Option (IndexEntry × List Str)
unfolding pick_sorted claims_before
pick_for_pattern candidates = pick_sorted (sort claims_before candidates)

abbrev pub add_winner : Str → Option (IndexEntry × List Str) → Index → Index
add_winner pattern none idx = idx
add_winner pattern (some (winner, conflicting)) idx = record {
  entries = idx.entries ++ winner ∷ [];
  conflicts =
      if is_empty conflicting then idx.conflicts else Dict.insert pattern conflicting idx.conflicts;
}

unfoldable pub add_winners : Dict (List IndexEntry) → Index → Index
unfolding pick_for_pattern
add_winners [] idx = idx
add_winners ((pattern, candidates) ∷ m) idx =
    add_winners m (add_winner pattern (pick_for_pattern candidates) idx)

-- buildSysObjectIDIndex
unfoldable pub build_index : {fl : Floats} → StrSet → Dict (ProfileDefinition fl) → Index
unfolding patterns_of add_winners
build_index from_user raw =
    let idx =
      add_winners (patterns_of from_user raw []) (record { entries = []; conflicts = [] }) in
    record idx { entries = sort (λ a b. str_less a.pattern b.pattern) idx.entries }

abbrev by_wildcard : Bool → Bool → Ordering → Ordering
by_wildcard true true last = last
by_wildcard false false last = last
by_wildcard true false last = Ordering.lt
by_wildcard false true last = Ordering.gt

-- The parts of two patterns with as many of them; `last` compares the patterns as texts.
unfoldable pub compare_parts : List Str → List Str → Ordering → Ordering
compare_parts [] bs last = last
compare_parts (a ∷ as') [] last = last
compare_parts (a ∷ as') (b ∷ bs) last =
    let rest = compare_parts as' bs last in
    if str_eq a b then rest else by_wildcard (contains_byte a b'*') (contains_byte b b'*') last

abbrev by_length : Ordering → Ordering → Ordering
by_length Ordering.lt rest = Ordering.lt
by_length Ordering.eq rest = rest
by_length Ordering.gt rest = Ordering.gt

-- gt for an `a` that is more specific
unfoldable pub compare_patterns : Str → Str → Ordering
unfolding compare_parts
compare_patterns a b =
    if str_eq a b
    then Ordering.eq
    else by_length (compare (length (split b'.' a)) (length (split b'.' b)))
        (compare_parts (split b'.' a) (split b'.' b) (str_compare a b))

pub data Matched : Type 0 where
  matched : Str → Matched
  empty_id : Matched
  no_profile : Str → Matched
  conflicting : Str → List Str → Matched

module _ (globs : Globs) where
  abbrev pub is_match : Option Bool → Bool
  is_match none = false
  is_match (some b) = b

  abbrev pub better : IndexEntry → Option IndexEntry → IndexEntry
  better e none = e
  better e (some best) = if is_gt (compare_patterns e.pattern best.pattern) then e else best

  -- The loop, with the best entry so far.
  unfoldable pub best_of : Str → List IndexEntry → Option IndexEntry → Option IndexEntry
  best_of id [] best = best
  best_of id (e ∷ es) best =
      best_of id es (if is_match (globs.glob e.pattern id) then some (better e best) else best)

  abbrev pub without_conflict : IndexEntry → List Str → Matched
  without_conflict best [] = matched best.profile
  without_conflict best (n ∷ ns) = conflicting best.pattern (n ∷ ns)

  abbrev pub chosen : Str → Index → Option IndexEntry → Matched
  chosen id idx none = no_profile id
  chosen id idx (some best) =
      without_conflict best (or_none (Dict.lookup best.pattern idx.conflicts))

  abbrev pub match_trimmed : Index → Str → Matched
  match_trimmed idx id =
      if is_blank id then empty_id else chosen id idx (best_of id idx.entries none)

  unfoldable pub match_profile : Index → Str → Matched
  unfolding best_of
  match_profile idx sys_object_id =
      match_trimmed idx (trim_space (trim_prefix sys_object_id (lit ".")))
