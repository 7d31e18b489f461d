-- ===== src/Discovery/Scan/Identity.antt =====
-- internal/discovery/scan.go: what an identifier tells of its device.
use networkdevicereceiver.Base.{
  ◌≡◌, refl, sym, ap, ◌∙◌, false, [], ◌∷◌, ◌++◌, if◌then◌else◌, ◌==◌, All, Str,
}
use networkdevicereceiver.Discovery.Scan.{device_id}

-- An address holds no bar.
abbrev pub IsBarless : Str → Type 0
IsBarless address = All (λ c. (c == b'|') ≡ false) address

abbrev left_of : Str → Str
left_of [] = []
left_of (c ∷ s) = let rest = left_of s in if c == b'|' then [] else c ∷ rest

abbrev right_of : Str → Str
right_of [] = []
right_of (c ∷ s) = let rest = right_of s in if c == b'|' then s else rest

left-barless : (a : Str) → IsBarless a → left_of a ≡ a
left-barless [] h = refl
left-barless (c ∷ a) h = rw h.0 (ap (λ s. c ∷ s) (left-barless a h.1))

right-barless : (a : Str) → IsBarless a → right_of a ≡ []
right-barless [] h = refl
right-barless (c ∷ a) h = rw h.0 (right-barless a h.1)

left-bar : (a s : Str) → IsBarless a → left_of (a ++ b'|' ∷ s) ≡ a
left-bar [] s h = refl
left-bar (c ∷ a) s h = rw h.0 (ap (λ t. c ∷ t) (left-bar a s h.1))

right-bar : (a s : Str) → IsBarless a → right_of (a ++ b'|' ∷ s) ≡ s
right-bar [] s h = refl
right-bar (c ∷ a) s h = rw h.0 (right-bar a s h.1)

left-device_id : (a s : Str) → IsBarless a → left_of (device_id a s) ≡ a
unfolding device_id
left-device_id a [] h = left-barless a h
left-device_id a (c ∷ s) h = left-bar a (c ∷ s) h

right-device_id : (a s : Str) → IsBarless a → right_of (device_id a s) ≡ s
unfolding device_id
right-device_id a [] h = right-barless a h
right-device_id a (c ∷ s) h = right-bar a (c ∷ s) h

-- Devices at addresses without a bar have the same identifier only if they have the same address
-- and the same subnet.
pub device_id_inj :
    (a a' s s' : Str)
    → IsBarless a
    → IsBarless a'
    → device_id a s ≡ device_id a' s'
    → (a ≡ a') × (s ≡ s')
device_id_inj a a' s s' h h' e = (
  sym (left-device_id a s h) ∙ ap left_of e ∙ left-device_id a' s' h',
  sym (right-device_id a s h) ∙ ap right_of e ∙ right-device_id a' s' h',
)
