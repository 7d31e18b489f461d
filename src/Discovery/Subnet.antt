-- ===== src/Discovery/Subnet.antt =====
-- internal/discovery/scan.go: `ExpandCIDR`. An address of package netip is a number below 2^32 or
-- 2^128, and a prefix is its address and its bits; `Nets` reads and prints them.
pub mod Hosts
pub mod Expand
use networkdevicereceiver.Base.{
  ℕ, zero, suc, ◌+◌, ◌-◌, ◌*◌, ◌/◌, ◌^◌, ◌<◌, ◌≤◌, ◌≡◌, Bool, true, false, not, ◌&&◌, ◌||◌, ◌==◌,
  Option, none, some, List, [], ◌∷◌, ltb, leb, if◌then◌else◌, Str, ℤ, pos, negsuc,
}

pub record Prefix : Type 0 where
  pub is4 : Bool
  pub addr : ℕ
  pub bits : ℕ

-- netip.ParsePrefix and Addr.String
pub record Nets : Type 0 where
  pub parse_prefix : Str → Option Prefix
  pub print : Bool → ℕ → Str

abbrev pub bit_len : Bool → ℕ
bit_len true = 32
bit_len false = 128

-- How many addresses share the bits.
unfoldable pub size : Prefix → ℕ
size p = 2 ^ (bit_len p.is4 - p.bits)

unfoldable pub masked : Prefix → Prefix
unfolding size
masked p = record p { addr = p.addr / size p * size p }

unfoldable pub contains : Prefix → ℕ → Bool
unfolding size
contains p a = a / size p == p.addr / size p

-- Addr.Next, which is not valid after the last address.
unfoldable pub next : Bool → ℕ → Option ℕ
next is4 a = if ltb (suc a) (2 ^ bit_len is4) then some (suc a) else none

-- An address that is not valid is in no prefix.
unfoldable pub contains_next : Prefix → Option ℕ → Bool
unfolding contains
contains_next p none = false
contains_next p (some a) = contains p a

unfoldable pub host_count : Prefix → ℕ
host_count p = let bits = bit_len p.is4 - p.bits in if leb 64 bits then 2 ^ 64 - 1 else 2 ^ bits

unfoldable pub skip_edges : Prefix → Bool
skip_edges p = p.is4 && ltb p.bits 31

abbrev pub with_host : Bool → ℕ → List ℕ → List ℕ
with_host wanted a rest = if wanted then a ∷ rest else rest

unfoldable pub is_wanted : Prefix → ℕ → Bool
unfolding next contains_next
is_wanted p a = not (skip_edges p) || (not (a == p.addr) && contains_next p (next p.is4 a))

-- The loop over the addresses of a masked prefix, from `addr` on.
unfoldable pub hosts_from : ℕ → Prefix → ℕ → List ℕ
unfolding is_wanted
hosts_from zero p a = []
hosts_from (suc f) p a =
    let rest = hosts_from f p (suc a) in
    if contains p a
    then with_host (is_wanted p a) a (if ltb (suc a) (2 ^ bit_len p.is4) then rest else [])
    else []

pub data ExpandError : Type 0 where
  bad_prefix : Str → ExpandError
  too_wide : ℕ → ℕ → ExpandError

pub data Expanded : Type 0 where
  expanded : List Str → Expanded
  rejected : ExpandError → Expanded

-- The limit, DefaultMaxHosts if it is not positive.
unfoldable pub limit_of : ℤ → ℕ
limit_of (negsuc n) = 65536
limit_of (pos zero) = 65536
limit_of (pos (suc n)) = suc n

module _ (nets : Nets) where
  unfoldable pub print_all : Bool → List ℕ → List Str
  print_all is4 [] = []
  print_all is4 (a ∷ as') = nets.print is4 a ∷ print_all is4 as'

  -- The loop runs at most `size` times.
  unfoldable pub expand_prefix : ℕ → Prefix → Expanded
  unfolding masked host_count hosts_from print_all
  expand_prefix limit p =
      if ltb limit (host_count p)
      then rejected (too_wide (host_count p) limit)
      else expanded (print_all p.is4 (hosts_from (host_count p) p p.addr))

  abbrev pub expand_parsed : Str → ℕ → Option Prefix → Expanded
  expand_parsed cidr limit none = rejected (bad_prefix cidr)
  expand_parsed cidr limit (some p) = expand_prefix limit (masked p)

  unfoldable pub expand_cidr : Str → ℤ → Expanded
  unfolding expand_prefix limit_of
  expand_cidr cidr max_hosts = expand_parsed cidr (limit_of max_hosts) (nets.parse_prefix cidr)
