-- ===== src/Discovery/Registry/Persist.antt =====
-- internal/discovery/registry.go: what `Save` writes and `Load` brings back.
use networkdevicereceiver.Base.{
  ℕ, ◌≡◌, refl, ap, ◌≢◌, ◌∙◌, true, false, not, Option, none, some, List, [], ◌∷◌, arith, keep, All,
  if◌then◌else◌, length, Str, is_blank, str_eq, str_eq_iff,
}
use networkdevicereceiver.Base.Dict
use networkdevicereceiver.Base.Dict.{Dict, lookup-insert}
use networkdevicereceiver.Base.Sort.{sort, place, str_less, str_less_irrefl}
use networkdevicereceiver.Discovery.Registry.{
  Device, Registry, get, values, by_id, persisted, restore, Storage, save, save_to, load, load_from,
  ok, wrote,
}
use networkdevicereceiver.Discovery.Registry.Keyed.{IsKeyed}
use networkdevicereceiver.Report.Text.{valid_string}

-- The last device of a list with an identifier: the one that a map filled in order keeps.
last_with : Str → List Device → Option Device
last_with id [] = none
last_with id (dev ∷ devs) = elim (last_with id devs) [
  | some d ↦ some d
  | none ↦ if str_eq dev.id id then some dev else none
]

or_else : Option Device → Option Device → Option Device
or_else (some d) o = some d
or_else none o = o

get-restore :
    (id : Str) (devs : List Device) (r : Registry)
    → get id (restore devs r) ≡ or_else (last_with id devs) (get id r)
unfolding restore last_with or_else get
get-restore id [] r = refl
get-restore id (dev ∷ devs) r = ground (
  arith,
  get-restore id devs (record r { devices = Dict.insert dev.id dev r.devices }),
  lookup-insert dev.id id dev r.devices,
)

last_with-place :
    (id : Str) (dev : Device) (devs : List Device)
    → last_with id (place by_id dev devs) ≡ last_with id (dev ∷ devs)
unfolding place last_with
last_with-place id dev [] = refl
last_with-place id dev (d ∷ devs) =
    ground (arith, last_with-place id dev devs, apart, str_eq_iff d.id id, str_eq_iff dev.id id)
  where
    apart : by_id d dev ≡ true → d.id ≢ dev.id
    apart b e = cc (b, str_less_irrefl dev.id, ap (λ x. str_less x dev.id) e)

last_with-cons :
    (id : Str) (dev : Device) (xs ys : List Device)
    → last_with id xs ≡ last_with id ys
    → last_with id (dev ∷ xs) ≡ last_with id (dev ∷ ys)
unfolding last_with
last_with-cons id dev xs ys e = rw e

-- Sorting by identifier does not change which device is the last with an identifier.
last_with-sort :
    (id : Str) (devs : List Device) → last_with id (sort by_id devs) ≡ last_with id devs
unfolding sort
last_with-sort id [] = refl
last_with-sort id (dev ∷ devs) =
    last_with-place id dev (sort by_id devs) ∙ last_with-cons id dev _ devs (last_with-sort id devs)

abbrev pub unless_static : Option Device → Option Device
unless_static none = none
unless_static (some dev) = if dev.static then none else some dev

last_with-values :
    (id : Str) (m : Dict Device)
    → IsKeyed m
    → last_with id (keep (λ dev. not dev.static) (values m)) ≡ unless_static (Dict.lookup id m)
unfolding keep last_with Dict.lookup
last_with-values id [] h = refl
last_with-values id ((k, dev) ∷ m) h =
    ground (arith, last_with-values id m h.2, h.0, h.1, str_eq_iff dev.id id, str_eq_iff k id)

or_else-none : (o : Option Device) → or_else o none ≡ o
unfolding or_else
or_else-none none = refl
or_else-none (some d) = refl

get-restore-persisted :
    (id : Str) (r fresh : Registry)
    → IsKeyed r.devices
    → fresh.devices ≡ []
    → get id (restore (persisted r) fresh) ≡ unless_static (get id r)
unfolding persisted get Dict.lookup
get-restore-persisted id r fresh h e =
    let nothing : get id fresh ≡ none = rw e in
    let sorted = last_with-sort id (keep (λ dev. not dev.static) (values r.devices)) in
    get-restore id (persisted r) fresh
    ∙ rw nothing (or_else-none (last_with id (persisted r)))
    ∙ sorted
    ∙ last_with-values id r.devices h

-- JSON keeps texts that are UTF-8, and replaces the bytes that are not.
pub record IsEncodable (dev : Device) : Type 0 where
  pub id : valid_string dev.id ≡ true
  pub address : valid_string dev.address ≡ true
  pub subnet : valid_string dev.subnet ≡ true
  pub sys_object_id : valid_string dev.sys_object_id ≡ true
  pub profile_name : valid_string dev.profile_name ≡ true

module _ {W : Type 0} (st : Storage W)
    (decodes : (devs : List Device) (bytes : Str)
      → All IsEncodable devs
      → st.marshal devs ≡ some bytes
      → (st.unmarshal bytes ≡ some devs) × (is_blank bytes ≡ false))
    (reads : (bytes : Str) (w w' : W) → st.write bytes w ≡ some w' → st.read w' ≡ some bytes) where
  wrote_bytes :
      (r : Registry) (w w' : W) (b : Option Str)
      → st.marshal (persisted r) ≡ b
      → save_to st b w ≡ ok w'
      → (bytes : Str) × (st.marshal (persisted r) ≡ some bytes) × (st.write bytes w ≡ some w')
  unfolding save_to
  wrote_bytes r w w' none m s = cc
  wrote_bytes r w w' (some bytes) m s = (bytes, m, written (st.write bytes w) refl s)
    where
      written : (o : Option W) → st.write bytes w ≡ o → wrote o ≡ ok w' → st.write bytes w ≡ some w'
      written none e k = cc
      written (some v) e k = cc

  -- Where JSON decodes what it encoded, provided the texts of the devices are valid UTF-8, and the storage
  -- reads back what was written: if the devices that are to be saved have such texts, a `Save` that succeeds
  -- followed by a `Load` into an empty registry succeeds, and finds under each identifier the device that was
  -- there, unless it is static, and nothing under the others.
  pub load-save :
      (r fresh : Registry) (w w' : W)
      → IsKeyed r.devices
      → fresh.devices ≡ []
      → All IsEncodable (persisted r)
      → save (some st) r w ≡ ok w'
      → (r' : Registry) × (n : ℕ) × (load (some st) fresh w' ≡ ok (r', n))
        × ((id : Str) → get id r' ≡ unless_static (get id r))
  load-save r fresh w w' h e texts s =
      let (bytes, encoded, written) =
        wrote_bytes r w w' (st.marshal (persisted r)) refl (unfold save in s) in
      let (decoded, full) = decodes (persisted r) bytes texts encoded in
      (
        restore (persisted r) fresh,
        length (persisted r),
        unfold load load_from in rw (reads bytes w w' written, load_from) (rw (full, decoded)),
        λ id. get-restore-persisted id r fresh h e,
      )
