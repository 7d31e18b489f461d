-- ===== src/Receiver/Fleet/Shadows.antt =====
-- receiver.go: no device is registered a second time by a scan.
use networkdevicereceiver.Base.{
  ◌≡◌, sym, ◌∙◌, subst, Bool, Bool-cases, inl, inr, true, false, none, some, List, [], ◌∷◌, arith,
  All, if◌then◌else◌, map, Str, str_eq, str_eq_iff,
}
use networkdevicereceiver.Base.Sort.{place, sort}
use networkdevicereceiver.Base.Dict
use networkdevicereceiver.Base.Dict.{Dict, lookup-insert, lookup-erase}
use networkdevicereceiver.Profile.Compile.{StrSet}
use networkdevicereceiver.Discovery.Registry.{
  Device, Registry, upsert, upserted, refresh, remove, snapshot, set_profile, update,
}
use networkdevicereceiver.Discovery.Registry
use networkdevicereceiver.Discovery.Registry.Keyed.{IsKeyed, id-lookup}
use networkdevicereceiver.Receiver.Fleet.{is_shadow, remove_if, remove_shadows}

-- A device at a configured address is the configured one.
unfoldable pub IsUnshadowed : StrSet → Dict Device → Type 0
IsUnshadowed hosts m =
    (id : Str) (dev : Device) → Dict.lookup id m ≡ some dev → is_shadow hosts dev ≡ false

module _ {A : Type 0} (less : A → A → Bool) (P : A → Type 0) where
  All-place : (x : A) (ys : List A) → All P (place less x ys) → P x × All P ys
  unfolding place
  All-place x [] h = h
  All-place x (y ∷ ys) h = elim (Bool-cases (less y x)) [
    | inl b ↦
        let h' : All P (y ∷ place less x ys) = rw b at h in
        let (px, rest) = All-place x ys h'.1 in (px, (h'.0, rest))
    | inr b ↦ let h' : All P (x ∷ y ∷ ys) = rw b at h in h'
  ]

  All-sort : (xs : List A) → All P (sort less xs) → All P xs
  unfolding sort
  All-sort [] h = tt
  All-sort (x ∷ xs) h = let (px, rest) = All-place x (sort less xs) h in (px, All-sort xs rest)

All-lookup :
    (P : Device → Type 0) (m : Dict Device) (id : Str) (dev : Device)
    → All P (map (λ e. e.1) m)
    → Dict.lookup id m ≡ some dev
    → P dev
unfolding Dict.lookup
All-lookup P [] id dev h e = absurd (ground (arith, e))
All-lookup P ((k, d) ∷ m) id dev h e = elim (Bool-cases (str_eq k id)) [
  | inl same ↦ let e' : some d ≡ some dev = rw same at e in subst P (cc e') h.0
  | inr other ↦ All-lookup P m id dev h.1 (rw other at e)
]

lookup-remove_if :
    (b : Bool) (d : Device) (r : Registry) (id : Str) (dev : Device)
    → Dict.lookup id (remove_if b d r).devices ≡ some dev
    → (Dict.lookup id r.devices ≡ some dev) × (b ≡ true → ¬ (d.id ≡ id))
unfolding remove
lookup-remove_if false d r id dev e = (e, λ s same. cc s)
lookup-remove_if true d r id dev e =
    let kept : (if str_eq d.id id then none else Dict.lookup id r.devices) ≡ some dev =
      sym (lookup-erase d.id id r.devices) ∙ e in
    (ground (arith, kept), (λ s same. absurd (ground (arith, kept, (str_eq_iff d.id id).1 same))))

module _ (hosts : StrSet) where
  lookup-remove_shadows :
      (devs : List Device) (r : Registry) (id : Str) (dev : Device)
      → Dict.lookup id (remove_shadows hosts devs r).devices ≡ some dev
      → (Dict.lookup id r.devices ≡ some dev)
        × All (λ d. is_shadow hosts d ≡ true → ¬ (d.id ≡ id)) devs
  unfolding remove_shadows
  lookup-remove_shadows [] r id dev e = (e, tt)
  lookup-remove_shadows (d ∷ devs) r id dev e =
      let (left, rest) = lookup-remove_shadows devs (remove_if (is_shadow hosts d) d r) id dev e in
      let (old, gone) = lookup-remove_if (is_shadow hosts d) d r id dev left in (old, (gone, rest))

  pub remove_shadows-IsUnshadowed :
      (r : Registry)
      → IsKeyed r.devices
      → IsUnshadowed hosts (remove_shadows hosts (snapshot r) r).devices
  unfolding IsUnshadowed snapshot
  remove_shadows-IsUnshadowed r keyed id dev e =
      let (old, gone) = lookup-remove_shadows (snapshot r) r id dev e in
      let every =
        All-sort Registry.by_id (λ d. is_shadow hosts d ≡ true → ¬ (d.id ≡ id))
          (Registry.values r.devices) gone in
      let absent =
        All-lookup (λ d. is_shadow hosts d ≡ true → ¬ (d.id ≡ id)) r.devices id dev every old in
      elim (Bool-cases (is_shadow hosts dev)) [
        | inl shadow ↦ absurd (absent shadow (id-lookup id dev r.devices keyed old))
        | inr clear ↦ clear
      ]
