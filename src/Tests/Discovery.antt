-- ===== src/Tests/Discovery.antt =====
-- internal/discovery at concrete inputs.
use networkdevicereceiver.Report.Text.{valid_from, follows}
use networkdevicereceiver.Base.{
  All, keep, ℕ, zero, suc, ◌≡◌, refl, sym, subst, ap, Bool, true, false, none, some, List, [], ◌∷◌,
  ◌++◌, length, take, drop, Str, lit, is_blank, str_eq,
}
use networkdevicereceiver.Base.Dict
use networkdevicereceiver.Base.Sort.{sort}
use networkdevicereceiver.Discovery.Registry.{
  Device, Registry, get, save, save_to, load, persisted, Storage, ok,
}
use networkdevicereceiver.Discovery.Registry.Keyed.{
  IsKeyed, run_calls, run_calls-IsKeyed, upserts, fails, removes, profiles,
}
use networkdevicereceiver.Discovery.Registry.Failures.{failing, after_failures, get-failing}
use networkdevicereceiver.Discovery.Scan.Identity.{IsBarless, device_id_inj}
use networkdevicereceiver.Discovery.Registry.Persist.{load-save, unless_static, IsEncodable}

abbrev router : Device
router = record {
  id = lit "r";
  address = lit "10.0.0.1";
  port = 161;
  subnet = lit "10.0.0.0/24";
  auth_index = 0;
  sys_object_id = lit "1.3";
  profile_name = lit "p";
  failures = 1;
  static = false;
  last_seen = 5;
}

abbrev switch : Device
switch = record router { id = lit "s"; static = true }

abbrev site : Registry
site = record { devices = (lit "r", router) ∷ (lit "s", switch) ∷ []; allowed_failures = 3 }

get-failing_example : get (lit "r") (failing 3 (lit "r") site) ≡ after_failures 3 3 router
unfolding get Dict.lookup str_eq
get-failing_example = get-failing 3 (lit "r") site router refl refl

run_calls-IsKeyed_example :
    IsKeyed
      (run_calls site (
        upserts router
        ∷ fails (lit "r")
        ∷ profiles (lit "s") (lit "1") (lit "q")
        ∷ removes (lit "r")
        ∷ [])).devices
unfolding Dict.lookup str_eq
run_calls-IsKeyed_example =
    run_calls-IsKeyed site
      (upserts router
        ∷ fails (lit "r")
        ∷ profiles (lit "s") (lit "1") (lit "q")
        ∷ removes (lit "r")
        ∷ [])
      (refl, refl, (refl, refl, tt))

-- A stand-in for JSON: each text after its length, each list after its count.
abbrev put : Str → Str → Str
put s rest = length s ∷ s ++ rest

abbrev bit : Bool → ℕ
bit false = 0
bit true = 1

abbrev put_device : Device → Str → Str
put_device d rest = put d.id (
    put d.address (
      put d.subnet (
        put d.sys_object_id (
          put d.profile_name
            (d.port ∷ d.auth_index ∷ d.failures ∷ bit d.static ∷ d.last_seen ∷ rest)))))

put_devices : List Device → Str
put_devices [] = []
put_devices (d ∷ ds) = put_device d (put_devices ds)

abbrev take_str : Str → Str × Str
take_str [] = ([], [])
take_str (n ∷ s) = (take n s, drop n s)

abbrev unbit : ℕ → Bool
unbit zero = false
unbit (suc b) = true

unbit-bit : (b : Bool) → unbit (bit b) ≡ b
unbit-bit false = refl
unbit-bit true = refl

abbrev tail_of : Device → Str → Device × Str
tail_of d (p ∷ a ∷ f ∷ b ∷ l ∷ rest) =
    (record d { port = p; auth_index = a; failures = f; static = unbit b; last_seen = l }, rest)
tail_of d _ = (d, [])

take_device : Str → Device × Str
take_device s =
    let (id, s₁) = take_str s in
    let (address, s₂) = take_str s₁ in
    let (subnet, s₃) = take_str s₂ in
    let (sys, s₄) = take_str s₃ in
    let (name, s₅) = take_str s₄ in
    tail_of
      (record router {
        id = id;
        address = address;
        subnet = subnet;
        sys_object_id = sys;
        profile_name = name;
      })
      s₅

take_devices : ℕ → Str → List Device
take_devices zero s = []
take_devices (suc n) s = let (d, rest) = take_device s in d ∷ take_devices n rest

abbrev memory : Storage Str
memory = record {
  marshal = λ ds. some (length ds ∷ put_devices ds);
  unmarshal = λ s. elim s [ [] ↦ none | n ∷ rest ↦ some (take_devices n rest) ];
  read = some;
  write = λ bytes w. some bytes;
}

take-length : (t rest : Str) → take (length t) (t ++ rest) ≡ t
take-length [] rest = refl
take-length (c ∷ t) rest = ap (λ u. c ∷ u) (take-length t rest)

drop-length : (t rest : Str) → drop (length t) (t ++ rest) ≡ rest
drop-length [] rest = refl
drop-length (c ∷ t) rest = drop-length t rest

take_device-put : (d : Device) (rest : Str) → take_device (put_device d rest) ≡ (d, rest)
unfolding take_device
take_device-put d rest =
    simp (take-length, drop-length) (λ i. (record d { static = unbit-bit d.static i }, rest))

take_devices-put : (ds : List Device) → take_devices (length ds) (put_devices ds) ≡ ds
unfolding take_devices put_devices
take_devices-put [] = refl
take_devices-put (d ∷ ds) =
    rw (take_device-put d (put_devices ds)) (ap (λ es. d ∷ es) (take_devices-put ds))

abbrev vacant : Registry
vacant = record { devices = []; allowed_failures = 3 }

readable : All IsEncodable (persisted site)
unfolding valid_from follows persisted sort keep
readable = (
  record { id = refl; address = refl; subnet = refl; sys_object_id = refl; profile_name = refl },
  tt,
)

load-save_example :
    (r' : Registry) × (n : ℕ) × (load
        (some memory)
        vacant
        (length (persisted site) ∷ put_devices (persisted site))
      ≡ ok (r', n))
    × ((id : Str) → get id r' ≡ unless_static (get id site))
unfolding save save_to Dict.lookup str_eq
load-save_example =
    load-save memory
      (λ devs bytes texts e. (
        subst (λ b. memory.unmarshal b ≡ some devs) (encoded devs bytes e)
            (ap some (take_devices-put devs)),
        subst (λ b. is_blank b ≡ false) (encoded devs bytes e) refl,
      ))
      (λ bytes w w' e. sym e) site vacant []
      (length (persisted site) ∷ put_devices (persisted site)) (refl, refl, (refl, refl, tt)) refl
      readable refl
  where
    encoded :
        (devs : List Device) (bytes : Str)
        → some (length devs ∷ put_devices devs) ≡ some bytes
        → (length devs ∷ put_devices devs) ≡ bytes
    encoded devs bytes e = cc

barless : IsBarless (lit "10.0.0.1")
barless = (refl, (refl, (refl, (refl, (refl, (refl, (refl, (refl, tt))))))))

device_id_inj_example : (lit "10.0.0.1" ≡ lit "10.0.0.1") × (lit "10.0.0.0/24" ≡ lit "10.0.0.0/24")
device_id_inj_example =
    device_id_inj (lit "10.0.0.1") (lit "10.0.0.1") (lit "10.0.0.0/24") (lit "10.0.0.0/24") barless
      barless refl
