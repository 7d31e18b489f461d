-- ===== src/Base/Number.antt =====
-- Go's signed integers, decimal text, and float64 as the operations that the program calls.
use Prim.Native.Nat.{ℕ, zero, suc, ◌+◌, ◌-◌, ◌*◌, ◌/◌, ◌%◌}
use mathlib.Core.List.{List, [], ◌∷◌}
use mathlib.Core.Bool.{Bool, true, false}
use mathlib.Core.Option.{Option}
use networkdevicereceiver.Base.Tests.{ltb, leb, ◌==◌, if◌then◌else◌}
use networkdevicereceiver.Base.Text.{Str}

-- `negsuc n` is -(n + 1).
pub data ℤ : Type 0 where
  pos : ℕ → ℤ
  negsuc : ℕ → ℤ

-- m - n
unfoldable pub difference : ℕ → ℕ → ℤ
difference m n = if leb n m then pos (m - n) else negsuc (n - m - 1)

unfoldable pub plus_int : ℤ → ℤ → ℤ
unfolding difference
plus_int (pos m) (pos n) = pos (m + n)
plus_int (pos m) (negsuc n) = difference m (n + 1)
plus_int (negsuc m) (pos n) = difference n (m + 1)
plus_int (negsuc m) (negsuc n) = negsuc (m + n + 1)

unfoldable pub opposite : ℤ → ℤ
unfolding difference
opposite (pos n) = difference 0 n
opposite (negsuc n) = pos (n + 1)

unfoldable pub times_int : ℤ → ℤ → ℤ
unfolding difference
times_int (pos m) (pos n) = pos (m * n)
times_int (pos m) (negsuc n) = difference 0 (m * (n + 1))
times_int (negsuc m) (pos n) = difference 0 ((m + 1) * n)
times_int (negsuc m) (negsuc n) = pos ((m + 1) * (n + 1))

unfoldable pub int_less : ℤ → ℤ → Bool
int_less (pos m) (pos n) = ltb m n
int_less (pos m) (negsuc n) = false
int_less (negsuc m) (pos n) = true
int_less (negsuc m) (negsuc n) = ltb n m

unfoldable pub int_same : ℤ → ℤ → Bool
int_same (pos m) (pos n) = m == n
int_same (negsuc m) (negsuc n) = m == n
int_same (pos m) (negsuc n) = false
int_same (negsuc m) (pos n) = false

-- n in decimal; the fuel n + 1 exceeds the number of digits.
print_onto : ℕ → ℕ → Str → Str
print_onto zero n out = out
print_onto (suc f) n out =
    let out' = (48 + n % 10) ∷ out in
    let rest = print_onto f (n / 10) out' in if ltb n 10 then out' else rest

unfoldable pub print_nat : ℕ → Str
unfolding print_onto
print_nat n = print_onto (suc n) n []

-- strconv.FormatInt(z, 10)
unfoldable pub print_int : ℤ → Str
unfolding print_nat
print_int (pos n) = print_nat n
print_int (negsuc n) = b'-' ∷ print_nat (suc n)

-- The runes of texts: []rune(s) and string(runes), and the tables of the package unicode.
pub record Letters : Type 0 where
  pub runes : Str → List ℕ
  pub text : List ℕ → Str
  pub is_letter : ℕ → Bool
  pub is_digit : ℕ → Bool
  pub is_upper : ℕ → Bool
  pub is_lower : ℕ → Bool
  pub to_lower : ℕ → ℕ
  pub to_upper : ℕ → ℕ

-- float64 and float32, and the letters of names: the language's own numbers, of which the model keeps the operations.
pub record Floats : Type 1 where
  pub F : Type 0
  pub F32 : Type 0
  -- float64(z) of an integer, and float64(f) of a float32
  pub of_int : ℤ → F
  pub widen : F32 → F
  -- strconv.ParseFloat(s, 64), strconv.FormatFloat(f, 'f', -1, 64) and fmt.Sprint
  pub parse : Str → Option F
  pub format : F → Str
  pub sprint : F → Str
  pub sprint32 : F32 → Str
  -- int64(f), when f is integral and below 1e15 in size
  pub small_integral : F → Option ℤ
  -- int64(f)
  pub truncate : F → ℤ
  -- f * g, f - g, f / g, f == g and f < g
  pub times : F → F → F
  pub minus : F → F → F
  pub over : F → F → F
  pub same : F → F → Bool
  pub less : F → F → Bool
  -- math.Pow(10, float64(z))
  pub power_of_ten : ℤ → F
  pub letters : Letters
  -- d.Seconds() of a duration in nanoseconds
  pub seconds : ℕ → F
