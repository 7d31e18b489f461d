-- ===== src/Discovery/Scan/Found.antt =====
-- internal/discovery/scan.go: the devices that a scan finds.
use networkdevicereceiver.Base.{
  ◌≡◌, refl, ap, ◌∙◌, Bool-cases, inl, inr, false, Option, none, some, List, [], ◌∷◌, arith, All,
  All-imp, Any, is_empty, get_elem?, Str, Floats,
}
use networkdevicereceiver.Discovery.Registry.{Device}
use networkdevicereceiver.Discovery.Subnet.{Nets, Expanded, expanded, rejected, expand_cidr}
use networkdevicereceiver.Discovery.Scan.{
  SubnetConfig, Transport, ScanError, bad_subnet, no_credentials, is_ignored, probe, and_found,
  scan_each, unless_cancelled, scan_expanded, scan,
}
use networkdevicereceiver.Discovery.Scan.Answered.{IsFoundIn, IsFoundAt, probe_from-Goes}

module _ (fl : Floats) {W : Type 0} where
  module _ (tr : Transport fl W) (subnet : SubnetConfig) where
    -- Found at one of the addresses, which is not to be ignored.
    abbrev pub IsFoundAmong : List Str → Device → Type 0
    IsFoundAmong addresses d =
        IsFoundIn fl tr subnet d
        × Any (λ a. d.address ≡ a) addresses
        × (is_ignored d.address subnet.ignored_addresses ≡ false)

    later :
        (address : Str) (more : List Str) (d : Device)
        → IsFoundAmong more d
        → IsFoundAmong (address ∷ more) d
    later address more d h = (h.0, inr h.1, h.2)

    scan_each-total :
        (addresses : List Str) (w : W)
        → (found : List Device) × (w' : W) × (scan_each fl tr subnet addresses w ≡ some (found, w'))
          × All (IsFoundAmong addresses) found
    unfolding scan_each probe
    scan_each-total [] w = ([], w, refl, tt)
    scan_each-total (address ∷ more) w =
        elim (Bool-cases (is_ignored address subnet.ignored_addresses)) [
          | inl skip ↦
              let (found, w', e, all) = scan_each-total more w in
              rw skip (
                found,
                w',
                e,
                All-imp (IsFoundAmong more) (IsFoundAmong (address ∷ more)) found
                    (later address more) all,
              )
          | inr wanted ↦
              let (one, w', e, at) =
                probe_from-Goes fl tr address subnet subnet.credentials 0 w
                  (λ i. ap (get_elem? subnet.credentials) (omega arith)) in
              let (found, w'', g, all) = scan_each-total more w' in
              rw (wanted, e)
                (joined one found w'' g at
                  (All-imp (IsFoundAmong more) (IsFoundAmong (address ∷ more)) found
                    (later address more) all)
                  wanted)
        ]
      where
        joined :
            (one : Option Device) (found : List Device) (w'' : W) {o : Option (List Device × W)}
            → o ≡ some (found, w'')
            → IsFoundAt fl tr subnet address one
            → All (IsFoundAmong (address ∷ more)) found
            → is_ignored address subnet.ignored_addresses ≡ false
            → (out : List Device) × (last : W) × (and_found fl tr subnet one o ≡ some (out, last))
              × All (IsFoundAmong (address ∷ more)) out
        joined none found w'' e at all wanted = (found, w'', rw e refl, all)
        joined (some d) found w'' e at all wanted = (
          d ∷ found,
          w'',
          rw e refl,
          ((at.0, inl at.1, ap (λ a. is_ignored a subnet.ignored_addresses) at.1 ∙ wanted), all),
        )

    -- The addresses of the subnet; none for one that is rejected.
    abbrev pub addresses_of : Expanded → List Str
    addresses_of (rejected e) = []
    addresses_of (expanded addresses) = addresses

    abbrev Scans : List Str → Option ((List Device × Option ScanError) × W) → Type 0
    Scans addresses o =
        (found : List Device) × (err : Option ScanError) × (w' : W) × (o ≡ some ((found, err), w'))
        × All (IsFoundAmong addresses) found

    scan_expanded-Scans :
        (x : Expanded) (w : W) → Scans (addresses_of x) (scan_expanded fl tr subnet x w)
    scan_expanded-Scans (rejected e) w = ([], some (bad_subnet e), w, refl, tt)
    scan_expanded-Scans (expanded addresses) w = elim (Bool-cases (is_empty subnet.credentials)) [
      | inl none_left ↦ rw none_left ([], some (no_credentials subnet.network), w, refl, tt)
      | inr several ↦
          let (found, w', e, all) = scan_each-total addresses w in
          rw (several, e)
            (
              found,
              (unless_cancelled fl tr subnet found (tr.is_done w')).0.1,
              (unless_cancelled fl tr subnet found (tr.is_done w')).1,
              refl,
              all,
            )
    ]

    -- Every scan that probes the addresses of a subnet in turn returns. Each device that it found is at an address of the subnet that is not
    -- ignored, has the identifier of the address and the subnet, told its
    -- sysObjectID to a session that was opened with those of the subnet's credentials that have its index.
    pub scan-found :
        (nets : Nets) (w : W)
        → (found : List Device) × (err : Option ScanError) × (w' : W) × (scan fl tr subnet nets w
            ≡ some ((found, err), w'))
          × All
              (IsFoundAmong (addresses_of (expand_cidr nets subnet.network subnet.max_hosts)))
              found
    unfolding scan
    scan-found nets w = scan_expanded-Scans (expand_cidr nets subnet.network subnet.max_hosts) w
