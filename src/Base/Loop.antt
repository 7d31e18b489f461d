-- ===== src/Base/Loop.antt =====
-- A loop whose body goes round again or leaves, on fuel, with its rule of total correctness.
use Prim.Native.Nat.{ℕ, zero, suc, ◌<◌}
use mathlib.Core.Path.{◌≡◌, refl}
use mathlib.Core.Option.{Option, none, some}
use native.Mathlib.Omega.{arith}

pub data Turn {ℓ} (S : Type ℓ) : Type ℓ where
  again : S → Turn S
  leave : S → Turn S

-- `none` means that the fuel ran out.
unfoldable pub run {ℓ} : {S : Type ℓ} → ℕ → (S → Turn S) → S → Option S
run zero body s = none
run (suc fuel) body s = elim (body s) [ again s' ↦ run fuel body s' | leave s' ↦ some s' ]

-- What a turn must do: keep the invariant and bring the measure down, or leave with the goal.
abbrev pub Turns {ℓ} : {S : Type ℓ} → (S → Type 0) → (S → Type 0) → (S → ℕ) → ℕ → Turn S → Type 0
Turns P Q measure n (again s) = P s × (measure s < n)
Turns P Q measure n (leave s) = Q s

-- With more fuel than the measure the loop ends, and its result has the goal.
module _ {ℓ} {S : Type ℓ} (P Q : S → Type 0) (measure : S → ℕ) (body : S → Turn S)
    (turn : (s : S) → P s → Turns P Q measure (measure s) (body s)) where
  pub run_total :
      (fuel : ℕ) (s : S) → measure s < fuel → P s → (t : S) × (run fuel body s ≡ some t) × Q t
  unfolding run
  run_total zero s m p = absurd (omega arith)
  run_total (suc fuel) s m p = go (run_total fuel) (body s) (turn s p)
    where
      go :
          ((s' : S) → measure s' < fuel → P s' → (t : S) × (run fuel body s' ≡ some t) × Q t)
          → (r : Turn S) → Turns P Q measure (measure s) r
          → (t : S) × (elim r [ again s' ↦ run fuel body s' | leave s' ↦ some s' ] ≡ some t) × Q t
      go rest (again s') h = rest s' (omega arith) h.0
      go rest (leave s') h = (s', refl, h)
