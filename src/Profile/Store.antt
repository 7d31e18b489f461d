-- ===== src/Profile/Store.antt =====
-- internal/profile/store.go: the profile documents by name, and their inheritance. Documents are
-- values here, so that `copyDefinition`, which keeps the raw documents apart from what is merged
-- into a copy, is the identity. The embedded files and the user's directory come in as pairs of a
-- file name and a parsed document.
pub mod Merge
pub mod Seen
pub mod Expand
pub mod Resolve
use networkdevicereceiver.Base.{
  ℕ, zero, suc, ◌+◌, Bool, true, false, Option, none, some, List, [], ◌∷◌, ◌++◌, if◌then◌else◌,
  length, Str, lit, is_blank, trim_suffix, has_prefix, str_eq, Floats,
}
use networkdevicereceiver.Base.Dict
use networkdevicereceiver.Base.Dict.{Dict}
use networkdevicereceiver.Profile.Definition.{
  ProfileDefinition, MetadataField, MetadataResourceConfig, MetricsConfig, MetricTagConfig,
}
use networkdevicereceiver.Profile.Normalize.{normalize}

-- A profile is referenced by its file's name without the extension.
unfoldable pub profile_name : Str → Str
profile_name filename = trim_suffix (trim_suffix filename (lit ".yaml")) (lit ".yml")

unfoldable pub is_abstract : Str → Bool
is_abstract name = has_prefix name (lit "_")

unfoldable pub seen_name : Str → List Str → Bool
seen_name s [] = false
seen_name s (t ∷ ts) = if str_eq t s then true else seen_name s ts

module _ {fl : Floats} where
  -- Fields that the child has not defined.
  unfoldable pub fill_fields :
      Dict (MetadataField fl) → Dict (MetadataField fl) → Dict (MetadataField fl)
  fill_fields fields [] = fields
  fill_fields fields ((field, def) ∷ parent) =
      fill_fields
        (elim (Dict.lookup field fields) [
          | none ↦ Dict.insert field def fields
          | some taken ↦ fields
        ])
        parent

  abbrev pub res_or_new : Option (MetadataResourceConfig fl) → MetadataResourceConfig fl
  res_or_new none = record { fields = []; id_tags = [] }
  res_or_new (some res) = res

  abbrev pub merge_resource :
      MetadataResourceConfig fl → MetadataResourceConfig fl → MetadataResourceConfig fl
  merge_resource dst parent = record {
    fields = fill_fields dst.fields parent.fields;
    id_tags = dst.id_tags ++ parent.id_tags;
  }

  unfoldable pub merge_metadata :
      Dict (MetadataResourceConfig fl)
      → Dict (MetadataResourceConfig fl)
      → Dict (MetadataResourceConfig fl)
  merge_metadata dst [] = dst
  merge_metadata dst ((name, parent) ∷ rest) =
      merge_metadata
        (Dict.insert name (merge_resource (res_or_new (Dict.lookup name dst)) parent) dst) rest

  -- The parent's lists after the child's, and the parent's metadata where the child has none.
  unfoldable pub merge : ProfileDefinition fl → ProfileDefinition fl → ProfileDefinition fl
  merge dst parent = record dst {
    metrics = dst.metrics ++ parent.metrics;
    metric_tags = dst.metric_tags ++ parent.metric_tags;
    static_tags = dst.static_tags ++ parent.static_tags;
    metadata = merge_metadata dst.metadata parent.metadata;
  }

-- What `expand` changes: the definition it fills, the names it has seen, and its errors, each the
-- reference to a profile that is not there.
pub record Expansion (fl : Floats) : Type 0 where
  pub dst : ProfileDefinition fl
  pub seen : List Str
  pub unknown : List Str

-- One reference: nothing more to do, or a parent that has been merged and is expanded next.
pub data Visit (fl : Floats) : Type 0 where
  done : Expansion fl → Visit fl
  into : ProfileDefinition fl → Expansion fl → Visit fl

module _ {fl : Floats} (raw : Dict (ProfileDefinition fl)) where
  pub visit_parent : Str → Option (ProfileDefinition fl) → Expansion fl → Visit fl
  visit_parent ref none s = done (record s { unknown = s.unknown ++ ref ∷ [] })
  visit_parent ref (some parent) s = into parent (record s { dst = merge s.dst parent })

  pub visit : Str → Expansion fl → Visit fl
  unfolding visit_parent
  visit ref s =
      let name = profile_name ref in
      if seen_name name s.seen
      then done s
      else visit_parent ref (Dict.lookup name raw) (record s { seen = name ∷ s.seen })

  -- The fuel bounds the depth of the calls; `none` means that it ran out.
  unfoldable pub expand : ℕ → List Str → Expansion fl → Option (Expansion fl)
  unfolding visit
  expand fuel [] s = some s
  expand zero (ref ∷ refs) s = none
  expand (suc fuel) (ref ∷ refs) s = elim (visit ref s) [
    | done s' ↦ expand (suc fuel) refs s'
    | into parent s' ↦ elim (expand fuel parent.extends s') [
      | none ↦ none
      | some s'' ↦ expand (suc fuel) refs s''
    ]
  ]

  abbrev pub expand_fuel : ℕ
  expand_fuel = length raw + 1

  abbrev pub seeded : Str → ProfileDefinition fl → Expansion fl
  seeded name base = record { dst = base; seen = name ∷ []; unknown = [] }

  pub data Resolved : Type 0 where
    resolved : ProfileDefinition fl → Resolved
    unknown_profile : Resolved
    -- errors in `expand`, by the references that have no profile
    unknown_parents : List Str → Resolved

  abbrev pub finish : Option (Expansion fl) → Option Resolved
  finish none = none
  finish (some s) = some (elim s.unknown [
    | [] ↦ resolved (normalize fl s.dst)
    | ref ∷ refs ↦ unknown_parents (ref ∷ refs)
  ])

  pub resolve_base : Str → Option (ProfileDefinition fl) → Option Resolved
  unfolding expand
  resolve_base name none = some unknown_profile
  resolve_base name (some base) = finish (expand expand_fuel base.extends (seeded name base))

  -- `resolveLocked` without its cache; `none` would mean that the fuel ran out.
  unfoldable pub resolve_raw : Str → Option Resolved
  unfolding resolve_base
  resolve_raw name = resolve_base name (Dict.lookup name raw)
