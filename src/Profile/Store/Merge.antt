-- ===== src/Profile/Store/Merge.antt =====
-- internal/profile/store.go: what a child has after a parent is merged into it.
use mathlib.Core.List.{append-nil}
use networkdevicereceiver.Base.{
  ◌≡◌, refl, ◌∙◌, ap, subst, Bool-cases, Option-cases, inl, inr, Option, none, some, List, sym, [],
  ◌∷◌, ◌++◌, Str, str_eq, str_eq_iff, Floats,
}
use networkdevicereceiver.Base.Dict
use networkdevicereceiver.Base.Dict.{Dict, lookup-insert}
use networkdevicereceiver.Profile.Definition.{
  ProfileDefinition, MetadataField, MetadataResourceConfig, MetricTagConfig,
}
use networkdevicereceiver.Profile.Store.{
  fill_fields, res_or_new, merge_resource, merge_metadata, merge,
}

abbrev pub or_else {ℓ} : {A : Type ℓ} → Option A → Option A → Option A
or_else none b = b
or_else (some a) b = some a

or_else-none {ℓ} : {A : Type ℓ} (a : Option A) → or_else a none ≡ a
or_else-none none = refl
or_else-none (some a) = refl

-- A map has each key once.
abbrev pub IsMap : {V : Type 0} → Dict V → Type 0
IsMap [] = Unit
IsMap ((k, v) ∷ m) = (Dict.lookup k m ≡ none) × IsMap m

module _ {fl : Floats} where
  lookup-fill_fields :
      (f : Str) (fields parent : Dict (MetadataField fl))
      → Dict.lookup f (fill_fields fields parent)
        ≡ or_else (Dict.lookup f fields) (Dict.lookup f parent)
  unfolding fill_fields Dict.lookup
  lookup-fill_fields f fields [] = elim (Option-cases (Dict.lookup f fields)) [
    | inl e ↦ rw e
    | inr (a, e) ↦ rw e
  ]
  lookup-fill_fields f fields ((g, def) ∷ parent) = elim (Option-cases (Dict.lookup g fields)) [
    | inl new ↦ rw new (
        lookup-fill_fields f (Dict.insert g def fields) parent
        ∙ rw (lookup-insert g f def fields) (elim (Bool-cases (str_eq g f)) [
          | inl same ↦
              let q = subst (λ k. Dict.lookup k fields ≡ none) ((str_eq_iff g f).0 same) new in
              rw (same, q)
          | inr other ↦ rw other
        ]))
    | inr (a, taken) ↦ rw taken (
        lookup-fill_fields f fields parent ∙ elim (Bool-cases (str_eq g f)) [
          | inl same ↦
              let q = subst (λ k. Dict.lookup k fields ≡ some a) ((str_eq_iff g f).0 same) taken in
              rw (same, q)
          | inr other ↦ rw other
        ])
  ]

  abbrev pub field_in : Option (MetadataResourceConfig fl) → Str → Option (MetadataField fl)
  field_in none f = none
  field_in (some res) f = Dict.lookup f res.fields

  -- The field of a resource.
  abbrev pub field_of : Dict (MetadataResourceConfig fl) → Str → Str → Option (MetadataField fl)
  field_of m r f = field_in (Dict.lookup r m) f

  field-merge_resource :
      (f : Str) (o : Option (MetadataResourceConfig fl)) (parent : MetadataResourceConfig fl)
      → Dict.lookup f (merge_resource (res_or_new o) parent).fields
        ≡ or_else (field_in o f) (Dict.lookup f parent.fields)
  unfolding Dict.lookup
  field-merge_resource f none parent = lookup-fill_fields f [] parent.fields
  field-merge_resource f (some res) parent = lookup-fill_fields f res.fields parent.fields

  field-merge_metadata :
      (r f : Str) (dst parent : Dict (MetadataResourceConfig fl))
      → IsMap parent
      → field_of (merge_metadata dst parent) r f ≡ or_else (field_of dst r f) (field_of parent r f)
  unfolding merge_metadata Dict.lookup
  field-merge_metadata r f dst [] h = elim (Option-cases (field_of dst r f)) [
    | inl e ↦ rw e
    | inr (a, e) ↦ rw e
  ]
  field-merge_metadata r f dst ((name, res) ∷ rest) h =
      let merged = merge_resource (res_or_new (Dict.lookup name dst)) res in
      field-merge_metadata r f (Dict.insert name merged dst) rest h.1
      ∙ rw (lookup-insert name r merged dst) (elim (Bool-cases (str_eq name r)) [
        | inl same ↦
            let q = (str_eq_iff name r).0 same in
            let missing = subst (λ k. Dict.lookup k rest ≡ none) q h.0 in
            rw (same, missing)
              (or_else-none _
                ∙ field-merge_resource f (Dict.lookup name dst) res
                ∙ ap (λ k. or_else (field_of dst k f) (Dict.lookup f res.fields)) q)
        | inr other ↦ rw other
      ])

  abbrev tags_in : Option (MetadataResourceConfig fl) → List (MetricTagConfig fl)
  tags_in none = []
  tags_in (some res) = res.id_tags

  -- The id tags of a resource.
  abbrev pub tags_of : Dict (MetadataResourceConfig fl) → Str → List (MetricTagConfig fl)
  tags_of m r = tags_in (Dict.lookup r m)

  tags-merge_resource :
      (o : Option (MetadataResourceConfig fl)) (parent : MetadataResourceConfig fl)
      → (merge_resource (res_or_new o) parent).id_tags ≡ tags_in o ++ parent.id_tags
  tags-merge_resource none parent = refl
  tags-merge_resource (some res) parent = refl

  tags-merge_metadata :
      (r : Str) (dst parent : Dict (MetadataResourceConfig fl))
      → IsMap parent
      → tags_of (merge_metadata dst parent) r ≡ tags_of dst r ++ tags_of parent r
  unfolding merge_metadata Dict.lookup
  tags-merge_metadata r dst [] h = sym (append-nil (tags_of dst r))
  tags-merge_metadata r dst ((name, res) ∷ rest) h =
      let merged = merge_resource (res_or_new (Dict.lookup name dst)) res in
      tags-merge_metadata r (Dict.insert name merged dst) rest h.1
      ∙ rw (lookup-insert name r merged dst) (elim (Bool-cases (str_eq name r)) [
        | inl same ↦
            let q = (str_eq_iff name r).0 same in
            let missing = subst (λ k. Dict.lookup k rest ≡ none) q h.0 in
            rw (same, missing)
              (append-nil _
                ∙ tags-merge_resource (Dict.lookup name dst) res
                ∙ ap (λ k. tags_of dst k ++ res.id_tags) q)
        | inr other ↦ rw other
      ])

  -- Where a parent's metadata name each resource once: a field of a resource is the child's if the
  -- child has it and the parent's otherwise; and the id tags of each resource, the metrics, the tags and
  -- the static tags are the child's, followed by the parent's.
  pub merge-child_first :
      (dst parent : ProfileDefinition fl)
      → IsMap parent.metadata
      → ((r f : Str)
          → field_of (merge dst parent).metadata r f
            ≡ or_else (field_of dst.metadata r f) (field_of parent.metadata r f))
        × ((r : Str)
            → tags_of (merge dst parent).metadata r
              ≡ tags_of dst.metadata r ++ tags_of parent.metadata r)
        × ((merge dst parent).metrics ≡ dst.metrics ++ parent.metrics)
        × ((merge dst parent).metric_tags ≡ dst.metric_tags ++ parent.metric_tags)
        × ((merge dst parent).static_tags ≡ dst.static_tags ++ parent.static_tags)
  unfolding merge
  merge-child_first dst parent h = (
    (λ r f. field-merge_metadata r f dst.metadata parent.metadata h),
    (λ r. tags-merge_metadata r dst.metadata parent.metadata h),
    refl,
    refl,
    refl,
  )
