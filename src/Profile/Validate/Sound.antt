-- ===== src/Profile/Validate/Sound.antt =====
-- internal/profiledefinition/normalize.go: profiles without a reported problem.
use networkdevicereceiver.Base.{
  ℕ, ◌+◌, ◌<◌, ◌≡◌, refl, ◌⊎◌, inl, inr, Bool, true, false, not, ◌==◌, Option, Option-cases,
  Bool-cases, none, some, List, [], ◌∷◌, ◌++◌, arith, length, All, All-imp, ◌||◌, is_blank, Floats,
}
use networkdevicereceiver.Profile.Definition.{
  SymbolConfig, MetricTagConfig, MetricsConfig, is_column, flag_stream, ProfileDefinition,
  MetadataResourceConfig,
}
use networkdevicereceiver.Base.Dict.{Dict}
use networkdevicereceiver.Profile.Validate.{
  MetricError, each, joined, when, reported, validate_symbol, validate_tag, validate_shape,
  validate_flags, validate_metric, validate, validate_metadata, validate_fields, bad_id_tag,
  bad_metric, bad_metric_tag,
}

++-nil : {A : Type 0} (xs ys : List A) → xs ++ ys ≡ [] → (xs ≡ []) × (ys ≡ [])
++-nil [] ys h = (refl, h)
++-nil (x ∷ xs) ys h = cc

each-nil {ℓ} :
    {A : Type ℓ} {E R : Type 0} (check : A → Option E) (at : ℕ → E → R) (i : ℕ) (xs : List A)
    → each check at i xs ≡ []
    → All (λ x. check x ≡ none) xs
unfolding each
each-nil check at i [] h = tt
each-nil check at i (x ∷ xs) h = elim (Option-cases (check x)) [
  | inl e ↦ (e, each-nil check at (i + 1) xs (rw (e, each) at h))
  | inr (b, e) ↦ let some_error = rw (e, each) at h in cc
]

when-nil : {E : Type 0} (b : Bool) (e : E) → when b e ≡ [] → b ≡ false
unfolding when
when-nil true e h = cc
when-nil false e h = refl

reported-nil : {E R : Type 0} (at : E → R) (o : Option E) → reported at o ≡ [] → o ≡ none
unfolding reported
reported-nil at none h = refl
reported-nil at (some e) h = cc

joined-nil {ℓ} : {E : Type ℓ} (es : List E) → joined es ≡ none → es ≡ []
unfolding joined
joined-nil [] h = refl
joined-nil (e ∷ es) h = cc

module _ {fl : Floats} where
  -- A symbol has a name, and an OID to read unless it stands for a constant.
  abbrev pub IsRead : SymbolConfig fl → Type 0
  IsRead s = (is_blank s.name ≡ false) × ((is_blank s.oid ≡ false) ⊎ (s.constant_value_one ≡ true))

  -- A tag has a source for its value, and a key or, with a pattern, several.
  abbrev pub IsTagged : MetricTagConfig fl → Type 0
  IsTagged t =
      ((is_blank t.symbol.oid ≡ false) ⊎ (0 < t.index))
      × (((is_blank t.tag ≡ false) × (length t.tags ≡ 0))
          ⊎ ((0 < length t.tags) × (is_blank t.match ≡ false)))

  pub record IsCollected (m : MetricsConfig fl) : Type 0 where
    -- a table's OID, and columns that are read
    pub columns : is_column m ≡ true → (is_blank m.table.oid ≡ false) × All IsRead m.symbols
    -- a scalar's OID
    pub scalar : is_column m ≡ false → IsRead m.symbol × (is_blank m.symbol.oid ≡ false)
    -- the bit of a flag stream, and what tells it from the others
    pub flags :
        m.metric_type ≡ flag_stream
        → (0 < m.options.placement) × (is_blank m.options.metric_suffix ≡ false)
    pub tagged : All IsTagged m.metric_tags

  symbol-IsRead : (s : SymbolConfig fl) → validate_symbol s ≡ none → IsRead s
  unfolding validate_symbol
  symbol-IsRead s h = ground arith

  tag-IsTagged : (t : MetricTagConfig fl) → validate_tag t ≡ none → IsTagged t
  unfolding validate_tag
  tag-IsTagged t h = ground arith

  symbols-IsRead :
      (ss : List (SymbolConfig fl)) → All (λ s. validate_symbol s ≡ none) ss → All IsRead ss
  symbols-IsRead ss = All-imp (λ s. validate_symbol s ≡ none) IsRead ss symbol-IsRead

  tags-IsTagged :
      (ts : List (MetricTagConfig fl)) → All (λ t. validate_tag t ≡ none) ts → All IsTagged ts
  tags-IsTagged ts = All-imp (λ t. validate_tag t ≡ none) IsTagged ts tag-IsTagged

  shape-columns :
      (m : MetricsConfig fl)
      → validate_shape m ≡ []
      → is_column m ≡ true
      → (is_blank m.table.oid ≡ false) × All IsRead m.symbols
  unfolding validate_shape
  shape-columns m h c =
      let (table, symbols) =
        ++-nil (when (is_blank m.table.oid) MetricError.needs_table_oid) _ (rw c at h) in
      (
        when-nil (is_blank m.table.oid) _ table,
        symbols-IsRead m.symbols
            (each-nil validate_symbol MetricError.bad_symbol 0 m.symbols symbols),
      )

  shape-scalar :
      (m : MetricsConfig fl)
      → validate_shape m ≡ []
      → is_column m ≡ false
      → IsRead m.symbol × (is_blank m.symbol.oid ≡ false)
  unfolding validate_shape
  shape-scalar m h c =
      let k = rw c at h in
      elim (Bool-cases (not (is_blank m.symbol.oid) || not (is_blank m.symbol.name))) [
        | inl named ↦
            let (symbol, oid) =
              ++-nil (reported MetricError.bad_scalar (validate_symbol m.symbol)) _
                (rw named at k) in
            (
              symbol-IsRead m.symbol
                  (reported-nil MetricError.bad_scalar (validate_symbol m.symbol) symbol),
              when-nil (is_blank m.symbol.oid) _ oid,
            )
        | inr unnamed ↦ let some_error = rw unnamed at k in cc
      ]

  flags-set :
      (m : MetricsConfig fl)
      → validate_flags m ≡ []
      → m.metric_type ≡ flag_stream
      → (0 < m.options.placement) × (is_blank m.options.metric_suffix ≡ false)
  unfolding validate_flags
  flags-set m h e =
      let (placement, suffix) =
        ++-nil (when (m.options.placement == 0) MetricError.needs_placement) _ (rw e at h) in
      (
        (let zero_not = when-nil (m.options.placement == 0) _ placement in ground arith),
        when-nil (is_blank m.options.metric_suffix) _ suffix,
      )

  metric-IsCollected : (m : MetricsConfig fl) → validate_metric m ≡ none → IsCollected m
  unfolding validate_metric
  metric-IsCollected m h =
      let (body, tags) = ++-nil (validate_shape m ++ validate_flags m) _ (joined-nil _ h) in
      let (shape, flags) = ++-nil (validate_shape m) (validate_flags m) body in
      record {
        columns = shape-columns m shape;
        scalar = shape-scalar m shape;
        flags = flags-set m flags;
        tagged =
            tags-IsTagged m.metric_tags
              (each-nil validate_tag MetricError.bad_tag 0 m.metric_tags tags);
      }

  id_tags-IsTagged :
      (m : Dict (MetadataResourceConfig fl))
      → validate_metadata m ≡ []
      → All (λ e. All IsTagged e.1.id_tags) m
  unfolding validate_metadata
  id_tags-IsTagged [] h = tt
  id_tags-IsTagged ((name, res) ∷ rest) h =
      let id_tags = each validate_tag (bad_id_tag name) 0 res.id_tags in
      let (own, others) = ++-nil (validate_fields name res.fields ++ id_tags) _ h in
      let (fields, tags) = ++-nil (validate_fields name res.fields) id_tags own in
      (
        tags-IsTagged res.id_tags (each-nil validate_tag (bad_id_tag name) 0 res.id_tags tags),
        id_tags-IsTagged rest others,
      )

  -- In a profile without a problem that `Validate` reports, every metric names what is to be read:
  -- each column and scalar has a name and, constants of a table aside, an OID, a flag stream has a
  -- place and a suffix; and every tag, of a metric, of the
  -- device or of a metadata resource, has a source and a key.
  pub validate-IsCollected :
      (p : ProfileDefinition fl)
      → validate p ≡ []
      → All IsCollected p.metrics
        × All IsTagged p.metric_tags
        × All (λ e. All IsTagged e.1.id_tags) p.metadata
  unfolding validate
  validate-IsCollected p h =
      let (own, metadata) =
        ++-nil
          (each validate_metric bad_metric 0 p.metrics
            ++ each validate_tag bad_metric_tag 0 p.metric_tags)
          _ h in
      let (metrics, tags) = ++-nil (each validate_metric bad_metric 0 p.metrics) _ own in
      (
        All-imp (λ m. validate_metric m ≡ none) IsCollected p.metrics metric-IsCollected
            (each-nil validate_metric _ 0 p.metrics metrics),
        tags-IsTagged p.metric_tags (each-nil validate_tag _ 0 p.metric_tags tags),
        id_tags-IsTagged p.metadata metadata,
      )
