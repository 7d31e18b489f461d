-- ===== src/Naming/Registry/Schemes.antt =====
-- internal/naming/registry.go: the naming schemes against each other.
use networkdevicereceiver.Base.{
  ◌≡◌, sym, ◌∙◌, ◌⊎◌, inl, inr, ◌↔◌, Bool, Bool-cases, true, false, Option, none, some, List, [],
  ◌∷◌, arith, Any, Str, str_eq, str_eq_iff, Floats,
}
use networkdevicereceiver.Naming.Registry.{
  Entry, Registry, Resolution, Scheme, semconv, datadog_compat, both, apply_scheme, compat_name,
  resolve, resolve_found, lookup_entry, generated_entry,
}
use networkdevicereceiver.Naming.Fallback.{fallback_name}

-- A registry under another scheme.
abbrev pub under : {fl : Floats} → Scheme → Registry fl → Registry fl
under s r = record r { opts = record r.opts { scheme = s } }

abbrev pub IsNamed : {fl : Floats} → Str → Resolution fl → Type 0
IsNamed n res = Any (λ m. m ≡ n) res.names

abbrev pub IsDistinct : List Str → Type 0
IsDistinct [] = Unit
IsDistinct (n ∷ ns) = (¬ Any (λ m. m ≡ n) ns) × IsDistinct ns

-- What `both` emits is what the two other schemes emit, each name once.
abbrev pub IsUnion : {fl : Floats} → Resolution fl → Resolution fl → Resolution fl → Type 0
IsUnion b p c = IsDistinct b.names × ((n : Str) → IsNamed n b ↔ (IsNamed n p ⊎ IsNamed n c))

module _ {fl : Floats} where
  schemes-IsUnion :
      (e : Entry fl) (symbol : Str) (curated : Bool)
      → IsUnion
          (apply_scheme both e symbol curated)
          (apply_scheme semconv e symbol curated)
          (apply_scheme datadog_compat e symbol curated)
  unfolding apply_scheme
  schemes-IsUnion e symbol curated = elim (Bool-cases (str_eq (compat_name symbol) e.metric)) [
    | inl same ↦
        let q = (str_eq_iff (compat_name symbol) e.metric).0 same in
        rw same (
          ((λ h. h), tt),
          (λ n. (
            (λ h. inl h),
            elim [ inl h ↦ h | inr (inl h) ↦ inl (sym q ∙ h) | inr (inr h) ↦ absurd h ],
          )),
        )
    | inr other ↦
        let ne : ¬ (compat_name symbol ≡ e.metric) =
          λ q. ground (arith, (str_eq_iff _ _).1 q, other) in
        rw other (
          (elim [ inl h ↦ ne h | inr h ↦ h ], ((λ h. h), tt)),
          (λ n. (
            elim [ inl h ↦ inl (inl h) | inr h ↦ inr h ],
            elim [ inl (inl h) ↦ inl h | inl (inr h) ↦ absurd h | inr h ↦ inr h ],
          )),
        )
  ]

  found-IsUnion :
      (r : Registry fl) (mib symbol : Str) (o : Option (Entry fl))
      → IsUnion
          (resolve_found (under both r) mib symbol o)
          (resolve_found (under semconv r) mib symbol o)
          (resolve_found (under datadog_compat r) mib symbol o)
  found-IsUnion r mib symbol none =
      schemes-IsUnion
        (generated_entry (fallback_name fl.letters r.opts.fallback_namespace mib symbol)) symbol
        false
  found-IsUnion r mib symbol (some e) = schemes-IsUnion e symbol true

  -- For every symbol, curated or not: under `both` it is emitted under exactly the names that the
  -- other two schemes give it, and under none of them twice.
  pub resolve-IsUnion :
      (r : Registry fl) (mib symbol : Str)
      → IsUnion
          (resolve (under both r) mib symbol)
          (resolve (under semconv r) mib symbol)
          (resolve (under datadog_compat r) mib symbol)
  unfolding resolve lookup_entry
  resolve-IsUnion r mib symbol = found-IsUnion r mib symbol (lookup_entry r symbol)
