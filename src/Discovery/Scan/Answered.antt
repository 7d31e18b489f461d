-- ===== src/Discovery/Scan/Answered.antt =====
-- internal/discovery/scan.go: what the probe of an address finds.
use networkdevicereceiver.Base.{
  ℕ, suc, ◌+◌, ◌≡◌, refl, Bool, Bool-cases, inl, inr, true, false, Option, none, some, List, [],
  ◌∷◌, get_elem?, ap, ◌∙◌, arith, Str, is_blank, Floats,
}
use networkdevicereceiver.Snmp.Credentials.{Credentials}
use networkdevicereceiver.Snmp.Value.{ResultValue, scalar, string_of, new_value_store}
use networkdevicereceiver.Snmp.Fetch.Session.{Session, new_report, with_defaults}
use networkdevicereceiver.Snmp.Fetch.Scalars.Total.{fetch_scalars_total}
use networkdevicereceiver.Snmp.Fetch.Poll.{poll_scalars, poll_columns, fetch}
use networkdevicereceiver.Discovery.Registry.{Device}
use networkdevicereceiver.Discovery.Scan.{
  device_id, SubnetConfig, Dialed, Transport, oid_sys_object_id, sys_object_id_in,
  probe_sys_object_id, device_at, config_of, answered_or, identified_or, connected_or, dialed_or,
  unless_done, probe_from,
}

abbrev IsIdentifier : Option Str → Type 0
IsIdentifier none = Unit
IsIdentifier (some s) = is_blank s ≡ false

module _ (fl : Floats) where
  sys_object_id_in-IsIdentifier :
      (o : Option (ResultValue fl)) → IsIdentifier (sys_object_id_in fl o)
  sys_object_id_in-IsIdentifier none = tt
  sys_object_id_in-IsIdentifier (some v) = elim (Bool-cases (is_blank (string_of fl v.value))) [
    | inl blank ↦ rw blank tt
    | inr filled ↦ rw filled filled
  ]

module _ (fl : Floats) {W : Type 0} where
  probe_sys_object_id-total :
      (sess : Session fl W) (w : W)
      → (o : Option Str) × (w' : W) × (probe_sys_object_id fl sess w ≡ some (o, w'))
        × IsIdentifier o
  unfolding probe_sys_object_id fetch poll_scalars poll_columns with_defaults
  probe_sys_object_id-total sess w =
      let oids = oid_sys_object_id ∷ [] in
      let (s, e, _) = fetch_scalars_total fl sess 10 oids (new_value_store fl) new_report w in
      (
        sys_object_id_in fl (scalar fl s.store oid_sys_object_id),
        s.world,
        rw e refl,
        sys_object_id_in-IsIdentifier fl (scalar fl s.store oid_sys_object_id),
      )

  module _ (tr : Transport fl W) (subnet : SubnetConfig) where
    -- With the credentials of that index, a session to the address was dialed and connected, and told the
    -- sysObjectID.
    pub record Tells (address : Str) (index : ℕ) (sys_object_id : Str) : Type 0 where
      pub creds : Credentials
      pub asked : get_elem? subnet.credentials index ≡ some creds
      pub dialed : Dialed fl W
      pub before : W
      pub w₁ : W
      pub w₂ : W
      pub w₃ : W
      pub dials : tr.dial (config_of address subnet creds) before ≡ (some dialed, w₁)
      pub connects : dialed.connect w₁ ≡ (true, w₂)
      pub tells : probe_sys_object_id fl dialed.session w₂ ≡ some (some sys_object_id, w₃)

    -- A device of the subnet that answered one of its credentials, that of its index, with its sysObjectID.
    pub record IsFoundIn (d : Device) : Type 0 where
      pub named : d.id ≡ device_id d.address subnet.network
      pub from_subnet : d.subnet ≡ subnet.network
      pub answered : Tells d.address d.auth_index d.sys_object_id
      pub identified : is_blank d.sys_object_id ≡ false
      pub scanned : d.static ≡ false

    abbrev pub IsFoundAt : Str → Option Device → Type 0
    IsFoundAt address none = Unit
    IsFoundAt address (some d) = IsFoundIn d × (d.address ≡ address)

  module _ (tr : Transport fl W) (address : Str) (subnet : SubnetConfig) where
    abbrev Goes : Option (Option Device × W) → Type 0
    Goes o =
        (found : Option Device) × (w : W) × (o ≡ some (found, w))
        × IsFoundAt tr subnet address found

    abbrev AreTold : ℕ → Option Str → Type 0
    AreTold index none = Unit
    AreTold index (some sys) = Tells tr subnet address index sys

    answered_or-Goes :
        (index : ℕ) (rest : W → Option (Option Device × W)) (o : Option Str) (w : W)
        → AreTold index o
        → IsIdentifier o
        → ((w : W) → Goes (rest w))
        → Goes (answered_or fl tr address subnet index rest (o, w))
    unfolding answered_or
    answered_or-Goes index rest none w h i next = next w
    answered_or-Goes index rest (some sys) w h i next = (
      some (device_at address subnet index sys (tr.now w).0),
      (tr.now w).1,
      refl,
      (
        record { named = refl; from_subnet = refl; answered = h; identified = i; scanned = refl },
        refl,
      ),
    )

    module _ (index : ℕ) (creds : Credentials)
        (asked : get_elem? subnet.credentials index ≡ some creds)
        (rest : W → Option (Option Device × W)) (next : (w : W) → Goes (rest w)) where
      connected_or-Goes :
          (d : Dialed fl W) (before w₁ : W) (c : Bool × W)
          → tr.dial (config_of address subnet creds) before ≡ (some d, w₁)
          → d.connect w₁ ≡ c
          → Goes (connected_or fl tr address subnet index d rest c)
      unfolding connected_or identified_or
      connected_or-Goes d before w₁ (false, w) dials connects = next (d.close w)
      connected_or-Goes d before w₁ (true, w) dials connects =
          let (o, w', e, i) = probe_sys_object_id-total d.session w in
          rw e (answered_or-Goes index rest o (d.close w') (told o w' e) i next)
        where
          told :
              (o : Option Str) (w' : W)
              → probe_sys_object_id fl d.session w ≡ some (o, w')
              → AreTold index o
          told none w' e = tt
          told (some sys) w' e = record {
            creds = creds;
            asked = asked;
            dialed = d;
            before = before;
            w₁ = w₁;
            w₂ = w;
            w₃ = w';
            dials = dials;
            connects = connects;
            tells = e;
          }

      dialed_or-Goes :
          (before : W) (o : Option (Dialed fl W) × W)
          → tr.dial (config_of address subnet creds) before ≡ o
          → Goes (dialed_or fl tr address subnet index rest o)
      unfolding dialed_or
      dialed_or-Goes before (none, w) dials = next w
      dialed_or-Goes before (some d, w) dials =
          connected_or-Goes d before w (d.connect w) dials refl

      unless_done-Goes : (c : Bool × W) → Goes (unless_done fl tr address subnet index creds rest c)
      unfolding unless_done
      unless_done-Goes (true, w) = (none, w, refl, tt)
      unless_done-Goes (false, w) =
          dialed_or-Goes w (tr.dial (config_of address subnet creds) w) refl

    -- The credentials from the index-th on
    pub probe_from-Goes :
        (creds : List Credentials) (index : ℕ) (w : W)
        → ((i : ℕ) → get_elem? subnet.credentials (index + i) ≡ get_elem? creds i)
        → Goes (probe_from fl tr address subnet index creds w)
    unfolding probe_from
    probe_from-Goes [] index w h = (none, w, refl, tt)
    probe_from-Goes (c ∷ creds) index w h =
        unless_done-Goes index c (ap (get_elem? subnet.credentials) (omega arith) ∙ h 0)
          (λ w'. probe_from fl tr address subnet (suc index) creds w')
          (λ w'.
            probe_from-Goes creds (suc index) w'
              (λ i. ap (get_elem? subnet.credentials) (omega arith) ∙ h (suc i)))
          (tr.is_done w)
