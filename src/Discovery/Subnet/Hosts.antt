-- ===== src/Discovery/Subnet/Hosts.antt =====
-- internal/discovery/scan.go: the loop of `ExpandCIDR`, and the hosts of a prefix.
use native.Mathlib.Nat.{
  pow-zero, pow-suc, one-le-pow, div-eq_of_lt-le, div-lt_iff_lt-mul, mul-le-mul_right,
}
use networkdevicereceiver.Base.{
  ℕ, zero, suc, ◌+◌, ◌-◌, ◌*◌, ◌/◌, ◌^◌, ◌<◌, ◌≤◌, ◌≡◌, refl, ◌∙◌, ap, subst, Bool, Bool-cases, inl,
  inr, true, false, not, ◌&&◌, ◌||◌, ◌==◌, List, [], ◌∷◌, arith, ltb, leb, if◌then◌else◌,
}
use networkdevicereceiver.Discovery.Subnet.{
  Prefix, bit_len, size, masked, contains, next, contains_next, host_count, skip_edges, with_host,
  is_wanted, hosts_from,
}

-- n numbers from a on
unfoldable pub range : ℕ → ℕ → List ℕ
range a zero = []
range a (suc n) = a ∷ range (suc a) n

abbrev pub is_first : ℕ → Bool
is_first zero = true
is_first (suc i) = false

-- What ParsePrefix promises.
pub record IsPrefix (p : Prefix) : Type 0 where
  pub fits : p.bits ≤ bit_len p.is4
  pub in_family : p.addr < 2 ^ bit_len p.is4

pub size-positive : (p : Prefix) → 0 < size p
unfolding size
size-positive p = omega (arith, one-le-pow (bit_len p.is4 - p.bits) 2 (omega arith))

pow-plus : (b m n : ℕ) → b ^ (m + n) ≡ b ^ m * b ^ n
pow-plus b m zero = let same : m + 0 ≡ m = omega arith in rw (same, pow-zero b) (grind arith)
pow-plus b m (suc n) =
    let same : m + suc n ≡ suc (m + n) = omega arith in
    rw (same, pow-suc b (m + n), pow-suc b n, pow-plus b m n) (grind arith)

module _ (p : Prefix) (q : ℕ) (at : p.addr ≡ q * size p)
    (last : p.addr + size p ≤ 2 ^ bit_len p.is4) where
  contains-inside : (i : ℕ) → i < size p → contains p (p.addr + i) ≡ true
  unfolding contains
  contains-inside i h =
      let here : (p.addr + i) / size p ≡ q =
        div-eq_of_lt-le (size p) (omega (arith, at)) (grind (arith, at, h)) in
      let base : p.addr / size p ≡ q =
        div-eq_of_lt-le (size p) (omega (arith, at)) (grind (arith, at, size-positive p)) in
      ground (arith, here, base)

  contains-after : contains p (p.addr + size p) ≡ false
  unfolding contains
  contains-after =
      let after : (p.addr + size p) / size p ≡ q + 1 =
        div-eq_of_lt-le (size p) (grind (arith, at)) (grind (arith, at, size-positive p)) in
      let base : p.addr / size p ≡ q =
        div-eq_of_lt-le (size p) (omega (arith, at)) (grind (arith, at, size-positive p)) in
      ground (arith, after, base)

  next-inside :
      (i : ℕ) → i < size p → contains_next p (next p.is4 (p.addr + i)) ≡ ltb (suc i) (size p)
  unfolding contains_next next
  next-inside i h = elim (Bool-cases (ltb (suc i) (size p))) [
    | inl more ↦
        let inside = contains-inside (suc i) (ground arith) in
        let valid : ltb (suc (p.addr + i)) (2 ^ bit_len p.is4) ≡ true = ground arith in
        let step : p.addr + suc i ≡ suc (p.addr + i) = omega arith in
        rw (more, valid) (subst (λ a. contains p a ≡ true) step inside)
    | inr end ↦
        let step : p.addr + size p ≡ suc (p.addr + i) = ground arith in
        rw end (elim (Bool-cases (ltb (suc (p.addr + i)) (2 ^ bit_len p.is4))) [
          | inl valid ↦ rw valid (subst (λ a. contains p a ≡ false) step contains-after)
          | inr invalid ↦ rw invalid refl
        ])
  ]

  first_test : (i : ℕ) → ((p.addr + i) == p.addr) ≡ is_first i
  first_test zero = ground arith
  first_test (suc i) = ground arith

  wanted-inside :
      (i : ℕ)
      → i < size p
      → is_wanted p (p.addr + i)
        ≡ (not (skip_edges p) || (not (is_first i) && ltb (suc i) (size p)))
  unfolding is_wanted
  wanted-inside i h = rw (first_test i, next-inside i h) refl

  abbrev hosts_left : ℕ → ℕ → List ℕ
  hosts_left i f =
      if skip_edges p
      then (if is_first i then range (p.addr + 1) (f - 2) else range (p.addr + i) (f - 1))
      else range (p.addr + i) f

  -- Past the last address of the family there is nothing left.
  stops :
      (f i : ℕ)
      → i + suc f ≡ size p
      → (if ltb (suc (p.addr + i)) (2 ^ bit_len p.is4)
          then hosts_from f p (suc (p.addr + i))
          else [])
        ≡ hosts_from f p (suc (p.addr + i))
  unfolding hosts_from
  stops zero i e = ground arith
  stops (suc f) i e =
      let valid : ltb (suc (p.addr + i)) (2 ^ bit_len p.is4) ≡ true = ground arith in rw valid refl

  left_skipped :
      (f i : ℕ)
      → i + suc f ≡ size p
      → with_host
          (not (is_first i) && ltb (suc i) (size p))
          (p.addr + i)
          (range (p.addr + suc i) (f - 1))
        ≡ (if is_first i then range (p.addr + 1) (suc f - 2) else range (p.addr + i) (suc f - 1))
  unfolding range
  left_skipped f zero e = let same : f - 1 ≡ suc f - 2 = omega arith in ap (range (p.addr + 1)) same
  left_skipped zero (suc i) e =
      let ends : ltb (suc (suc i)) (size p) ≡ false = ground arith in rw ends refl
  left_skipped (suc f) (suc i) e =
      let more : ltb (suc (suc i)) (size p) ≡ true = ground arith in
      let step : p.addr + suc (suc i) ≡ suc (p.addr + suc i) = omega arith in
      let one : suc f - 1 ≡ f = omega arith in
      let two : suc (suc f) - 1 ≡ suc f = omega arith in
      rw (more, one, two) (ap (λ a. (p.addr + suc i) ∷ range a f) step)

  left_step :
      (f i : ℕ)
      → i + suc f ≡ size p
      → with_host
          (not (skip_edges p) || (not (is_first i) && ltb (suc i) (size p)))
          (p.addr + i)
          (hosts_left (suc i) f)
        ≡ hosts_left i (suc f)
  unfolding range
  left_step f i e = elim (Bool-cases (skip_edges p)) [
    | inl skip ↦ rw skip (left_skipped f i e)
    | inr all ↦
        let step : p.addr + suc i ≡ suc (p.addr + i) = omega arith in
        rw (all, range) (ap (λ a. (p.addr + i) ∷ range a f) step)
  ]

  hosts_from-left : (f i : ℕ) → i + f ≡ size p → hosts_from f p (p.addr + i) ≡ hosts_left i f
  unfolding hosts_from range
  hosts_from-left zero i e = ground arith
  hosts_from-left (suc f) i e =
      let step : p.addr + suc i ≡ suc (p.addr + i) = omega arith in
      let rest : hosts_from f p (suc (p.addr + i)) ≡ hosts_left (suc i) f =
        subst (λ a. hosts_from f p a ≡ hosts_left (suc i) f) step
          (hosts_from-left f (suc i) (omega (arith, e))) in
      rw
        (
          contains-inside i (omega (arith, e)),
          stops f i e,
          wanted-inside i (omega (arith, e)),
          rest,
        )
        (left_step f i e)

-- The addresses of a masked prefix; without the first and the last where an IPv4 prefix has them.
unfoldable pub hosts : Prefix → List ℕ
unfolding range
hosts p = if skip_edges p then range (p.addr + 1) (size p - 2) else range p.addr (size p)

size-power : (p : Prefix) → p.bits ≤ bit_len p.is4 → 2 ^ bit_len p.is4 ≡ 2 ^ p.bits * size p
unfolding size
size-power p fits =
    let sum : bit_len p.is4 ≡ p.bits + (bit_len p.is4 - p.bits) = omega (arith, fits) in
    ap (λ k. 2 ^ k) sum ∙ pow-plus 2 p.bits (bit_len p.is4 - p.bits)

masked-inside : (p : Prefix) → IsPrefix p → (masked p).addr + size (masked p) ≤ 2 ^ bit_len p.is4
unfolding masked size
masked-inside p h =
    let total = size-power p h.fits in
    let below : p.addr / size p < 2 ^ p.bits =
      (div-lt_iff_lt-mul (size-positive p)).1 (omega (arith, h.in_family, total)) in
    grind (arith, total, mul-le-mul_right (size p) below)

pub host_count-size :
    (p : Prefix) (limit : ℕ) → host_count p ≤ limit → limit < 2 ^ 63 → host_count p ≡ size p
unfolding host_count size
host_count-size p limit h small = elim (Bool-cases (leb 64 (bit_len p.is4 - p.bits))) [
  | inl wide ↦ absurd (ground (arith, h, small))
  | inr narrow ↦ rw narrow refl
]

pub hosts_from-hosts :
    (p : Prefix)
    → IsPrefix p
    → hosts_from (size (masked p)) (masked p) (masked p).addr ≡ hosts (masked p)
unfolding hosts masked size
hosts_from-hosts p h =
    let zeroth : (masked p).addr + 0 ≡ (masked p).addr = omega arith in
    subst
      (λ a. hosts_from (size (masked p)) (masked p) a ≡ (
        if skip_edges (masked p)
        then range ((masked p).addr + 1) (size (masked p) - 2)
        else range a (size (masked p))))
      zeroth
      (hosts_from-left (masked p) (p.addr / size p) refl (masked-inside p h) (size (masked p)) 0
        (omega arith))
