-- ===== src/Profile/Normalize/Idempotent.antt =====
-- internal/profiledefinition/normalize.go: what `Normalize` leaves as it is.
use networkdevicereceiver.Base.{
  ◌≡◌, refl, sym, ap, ◌∙◌, Bool-cases, inl, inr, false, not, ◌&&◌, Option, none, some, List, [],
  ◌∷◌, map, arith, Str, lit, is_blank, Floats, if◌then◌else◌, str_eq,
}
use networkdevicereceiver.Base.Dict
use networkdevicereceiver.Base.Dict.{Dict}
use networkdevicereceiver.Profile.Definition.{
  MetricType, unset, SymbolConfig, MetricTagConfig, MetricsConfig, MetadataField,
  MetadataResourceConfig, ProfileDefinition,
}
use networkdevicereceiver.Profile.Normalize.{
  normalize_type, normal_symbol, normalize_tag, normalize_tags, normalize_metric, force_type,
  take_scalar, normal_parts, normalize_resource, map_values, normalize, normalize_parts,
  fold_vendor, is_unset, resource_or_new, or_vendor,
}

normalize_type_idem : (t : MetricType) → normalize_type (normalize_type t) ≡ normalize_type t
unfolding normalize_type
normalize_type_idem t = ground arith

module _ (fl : Floats) where
  normalize_tag_idem :
      (t : MetricTagConfig fl) → normalize_tag fl (normalize_tag fl t) ≡ normalize_tag fl t
  unfolding normalize_tag
  normalize_tag_idem t = ground arith

  map_idem {ℓ} :
      {A : Type ℓ} (f : A → A)
      → ((a : A) → f (f a) ≡ f a)
      → (xs : List A) → map f (map f xs) ≡ map f xs
  map_idem f h [] = refl
  map_idem f h (x ∷ xs) = cc (h x, map_idem f h xs)

  normal_symbol_idem :
      (s : SymbolConfig fl) → normal_symbol fl (normal_symbol fl s) ≡ normal_symbol fl s
  normal_symbol_idem s = ap (λ t. record s { metric_type = t }) (normalize_type_idem s.metric_type)

  -- An entry in the current schema: nothing of it is in a legacy spelling.
  pub record IsNormal (m : MetricsConfig fl) : Type 0 where
    pub forced : m.forced_type ≡ unset
    pub typed : normalize_type m.metric_type ≡ m.metric_type
    pub moved : (is_blank m.symbol.oid && not (is_blank m.oid)) ≡ false
    pub listed : map (normal_symbol fl) m.symbols ≡ m.symbols
    pub single : normal_symbol fl m.symbol ≡ m.symbol
    pub tagged : normalize_tags fl m.metric_tags ≡ m.metric_tags

  scalar-IsNormal :
      (m : MetricsConfig fl)
      → m.forced_type ≡ unset
      → normalize_type m.metric_type ≡ m.metric_type
      → IsNormal (normal_parts fl (take_scalar fl m))
  unfolding take_scalar normal_parts normalize_tags
  scalar-IsNormal m forced typed =
      elim (Bool-cases (is_blank m.symbol.oid && not (is_blank m.oid))) [
        | inl legacy ↦ rw legacy (record {
          forced = forced;
          typed = typed;
          moved = ground arith;
          listed = map_idem (normal_symbol fl) normal_symbol_idem m.symbols;
          single = normal_symbol_idem _;
          tagged = map_idem (normalize_tag fl) normalize_tag_idem m.metric_tags;
        })
        | inr current ↦ rw current (record {
          forced = forced;
          typed = typed;
          moved = current;
          listed = map_idem (normal_symbol fl) normal_symbol_idem m.symbols;
          single = normal_symbol_idem m.symbol;
          tagged = map_idem (normalize_tag fl) normalize_tag_idem m.metric_tags;
        })
      ]

  pub normalize_metric-IsNormal : (m : MetricsConfig fl) → IsNormal (normalize_metric fl m)
  unfolding normalize_metric
  normalize_metric-IsNormal m = scalar-IsNormal (force_type fl m) refl (normalize_type_idem _)

  forced_id :
      (m : MetricsConfig fl)
      → m.forced_type ≡ unset
      → normalize_type m.metric_type ≡ m.metric_type
      → force_type fl m ≡ m
  unfolding force_type
  forced_id m forced typed =
      let q : unset ≡ m.forced_type = sym forced in
      let chosen : (if is_unset m.metric_type && not (is_unset m.forced_type)
            then m.forced_type
            else m.metric_type)
          ≡ m.metric_type =
        ground arith in
      let p = ap normalize_type chosen ∙ typed in
      λ i. record m { metric_type = p i; forced_type = q i }

  normal_metric : (m : MetricsConfig fl) → IsNormal m → normalize_metric fl m ≡ m
  unfolding normalize_metric take_scalar normal_parts
  normal_metric m h =
      let scalar : take_scalar fl m ≡ m = rw h.moved in
      let parts : normal_parts fl m ≡ m =
        λ i. record m { symbols = h.listed i; symbol = h.single i; metric_tags = h.tagged i } in
      ap (λ x. normal_parts fl (take_scalar fl x)) (forced_id m h.forced h.typed)
      ∙ ap (normal_parts fl) scalar
      ∙ parts

  normalize_metric_idem :
      (m : MetricsConfig fl) → normalize_metric fl (normalize_metric fl m) ≡ normalize_metric fl m
  normalize_metric_idem m = normal_metric (normalize_metric fl m) (normalize_metric-IsNormal m)

  normalize_resource_idem :
      (r : MetadataResourceConfig fl)
      → normalize_resource fl (normalize_resource fl r) ≡ normalize_resource fl r
  unfolding normalize_resource normalize_tags
  normalize_resource_idem r =
      let e = map_idem (normalize_tag fl) normalize_tag_idem r.id_tags in
      λ i. record r { id_tags = e i }

  map_values_idem {ℓ} :
      {A : Type ℓ} (f : A → A)
      → ((a : A) → f (f a) ≡ f a)
      → (m : Dict A) → map_values fl f (map_values fl f m) ≡ map_values fl f m
  unfolding map_values
  map_values_idem f h [] = refl
  map_values_idem f h ((k, v) ∷ m) = cc (h v, map_values_idem f h m)

  map_values-insert {ℓ} :
      {A : Type ℓ} (f : A → A) (k : Str) (v : A) (m : Dict A)
      → map_values fl f (Dict.insert k v m) ≡ Dict.insert k (f v) (map_values fl f m)
  unfolding map_values Dict.insert
  map_values-insert f k v [] = refl
  map_values-insert f k v ((j, w) ∷ m) = elim (Bool-cases (str_eq j k)) [
    | inl b ↦ rw b
    | inr b ↦ rw b (cc (map_values-insert f k v m))
  ]

  -- A value found in a dictionary that a function leaves alone is left alone too.
  fixed_lookup {ℓ} :
      {A : Type ℓ} (f : A → A) (k : Str) (v : A) (m : Dict A)
      → ((a : A) → f (f a) ≡ f a)
      → Dict.lookup k (map_values fl f m) ≡ some v
      → f v ≡ v
  unfolding map_values Dict.lookup
  fixed_lookup f k v [] h e = cc
  fixed_lookup f k v ((j, w) ∷ m) h e = elim (Bool-cases (str_eq j k)) [
    | inl b ↦ let found : some (f w) ≡ some v = rw b at e in cc (found, h w)
    | inr b ↦ fixed_lookup f k v m h (rw b at e)
  ]

  normalize_parts_idem :
      (p : ProfileDefinition fl) → normalize_parts fl (normalize_parts fl p) ≡ normalize_parts fl p
  unfolding normalize_tags
  normalize_parts_idem p =
      let ms = map_idem (normalize_metric fl) normalize_metric_idem p.metrics in
      let ts = map_idem (normalize_tag fl) normalize_tag_idem p.metric_tags in
      let md = map_values_idem (normalize_resource fl) normalize_resource_idem p.metadata in
      λ i. record p { metrics = ms i; metric_tags = ts i; metadata = md i }

  -- The device's resource, with any fields, is normal if the metadata are.
  device-normal :
      (m : Dict (MetadataResourceConfig fl)) (fields : Dict (MetadataField fl))
      (o : Option (MetadataResourceConfig fl))
      → Dict.lookup (lit "device") (map_values fl (normalize_resource fl) m) ≡ o
      → normalize_resource fl (record (resource_or_new fl o) { fields = fields })
        ≡ record (resource_or_new fl o) { fields = fields }
  unfolding normalize_resource normalize_tags
  device-normal m fields none e = refl
  device-normal m fields (some dev) e =
      let h = fixed_lookup (normalize_resource fl) (lit "device") dev m normalize_resource_idem e in
      ap (λ (d : MetadataResourceConfig fl). record d { fields = fields }) h

  fold_vendor-normal :
      (p : ProfileDefinition fl)
      → normalize_parts fl (fold_vendor fl (normalize_parts fl p))
        ≡ fold_vendor fl (normalize_parts fl p)
  unfolding fold_vendor
  fold_vendor-normal p =
      let q = normalize_parts fl p in
      let whole = normalize_parts_idem p in
      let dev = resource_or_new fl (Dict.lookup (lit "device") q.metadata) in
      let fields =
        or_vendor fl (Dict.lookup (lit "vendor") dev.fields) q.device_vendor dev.fields in
      let fixed = device-normal p.metadata fields (Dict.lookup (lit "device") q.metadata) refl in
      let md =
        map_values-insert (normalize_resource fl) (lit "device") (record dev { fields = fields })
          q.metadata
        ∙ cc (fixed, ap (λ (x : ProfileDefinition fl). x.metadata) whole) in
      λ i. record q {
        metrics = (whole i).metrics;
        metric_tags = (whole i).metric_tags;
        metadata = md i;
        device_vendor = [];
      }

  -- Normalizing a profile twice is normalizing it once.
  pub normalize_idem : (p : ProfileDefinition fl) → normalize fl (normalize fl p) ≡ normalize fl p
  unfolding normalize
  normalize_idem p = elim (Bool-cases (is_blank p.device_vendor)) [
    | inl blank ↦ rw blank (rw blank (normalize_parts_idem p))
    | inr vendor ↦ rw vendor (fold_vendor-normal p)
  ]
