-- ===== src/Discovery/Subnet/Expand.antt =====
-- internal/discovery/scan.go: what `ExpandCIDR` returns.
use networkdevicereceiver.Base.{
  ℕ, zero, suc, ◌^◌, ◌<◌, ◌≤◌, ◌≡◌, refl, ap, Bool-cases, inl, inr, Bool, Option, none, some, List,
  [], ◌∷◌, arith, ltb, if◌then◌else◌, length, Str, ℤ,
}
use networkdevicereceiver.Discovery.Subnet.{
  Prefix, Nets, masked, host_count, hosts_from, too_wide, Expanded, expanded, rejected, print_all,
  expand_prefix, expand_parsed, expand_cidr, limit_of,
}
use networkdevicereceiver.Discovery.Subnet.Hosts.{
  IsPrefix, hosts, host_count-size, hosts_from-hosts,
}

abbrev pub expansion : Nets → Prefix → ℕ → Expanded
expansion nets p limit =
    if ltb limit (host_count p)
    then rejected (too_wide (host_count p) limit)
    else expanded (print_all nets p.is4 (hosts (masked p)))

-- For a text that reads as a prefix, and a limit in the range of Go's int: the prefix is rejected if it has
-- more addresses than the limit, and otherwise expands to all its addresses in order, without the first and
-- the last if it is an IPv4 prefix of less than 31 bits.
pub expand_cidr-hosts :
    (nets : Nets) (cidr : Str) (max_hosts : ℤ) (p : Prefix)
    → nets.parse_prefix cidr ≡ some p
    → IsPrefix p
    → limit_of max_hosts < 2 ^ 63
    → expand_cidr nets cidr max_hosts ≡ expansion nets p (limit_of max_hosts)
unfolding expand_cidr expand_prefix host_count
expand_cidr-hosts nets cidr max_hosts p parsed prefix small =
    rw parsed (elim (Bool-cases (ltb (limit_of max_hosts) (host_count p))) [
      | inl wide ↦ rw wide refl
      | inr fits ↦
          let count = host_count-size p (limit_of max_hosts) (ground arith) small in
          rw (fits, count)
            (ap (λ as'. expanded (print_all nets p.is4 as')) (hosts_from-hosts p prefix))
    ])

length-hosts_from : (f : ℕ) (p : Prefix) (a : ℕ) → length (hosts_from f p a) ≤ f
unfolding hosts_from
length-hosts_from zero p a = omega arith
length-hosts_from (suc f) p a = ground (arith, length-hosts_from f p (suc a))

length-print_all :
    (nets : Nets) (is4 : Bool) (as' : List ℕ) → length (print_all nets is4 as') ≡ length as'
unfolding print_all
length-print_all nets is4 [] = refl
length-print_all nets is4 (a ∷ as') = ap suc (length-print_all nets is4 as')

-- A subnet never expands to more addresses than its limit.
pub expand_cidr-bound :
    (nets : Nets) (cidr : Str) (max_hosts : ℤ) (as' : List Str)
    → expand_cidr nets cidr max_hosts ≡ expanded as'
    → length as' ≤ limit_of max_hosts
unfolding expand_cidr expand_prefix
expand_cidr-bound nets cidr max_hosts as' e = go (nets.parse_prefix cidr) e
  where
    go :
        (o : Option Prefix)
        → expand_parsed nets cidr (limit_of max_hosts) o ≡ expanded as'
        → length as' ≤ limit_of max_hosts
    go none h = cc h
    go (some p) h = elim (Bool-cases (ltb (limit_of max_hosts) (host_count (masked p)))) [
      | inl wide ↦
          let h' : rejected (too_wide (host_count (masked p)) (limit_of max_hosts)) ≡ expanded as' =
            rw wide at h in
          cc h'
      | inr fits ↦
          let q = masked p in
          let h' : expanded (print_all nets p.is4 (hosts_from (host_count q) q q.addr))
              ≡ expanded as' =
            rw fits at h in
          let same : print_all nets p.is4 (hosts_from (host_count q) q q.addr) ≡ as' = cc h' in
          ground (
            arith,
            ap length same,
            length-print_all nets p.is4 (hosts_from (host_count q) q q.addr),
            length-hosts_from (host_count q) q q.addr,
          )
    ]
