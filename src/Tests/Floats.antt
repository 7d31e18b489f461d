-- ===== src/Tests/Floats.antt =====
-- A stand-in for float64 in which every number is whole.
use networkdevicereceiver.Base.{
  ℕ, Option, none, some, ℤ, pos, print_int, Floats, ◌/◌, times_int, plus_int, opposite, int_same,
  int_less, Letters, Bool, leb, ◌&&◌, ◌||◌, if◌then◌else◌, ◌+◌, ◌-◌,
}
use networkdevicereceiver.Snmp.Oid.{parse_uint}

abbrev positive : Option ℕ → Option ℤ
positive none = none
positive (some n) = some (pos n)

abbrev upper : ℕ → Bool
upper c = leb 65 c && leb c 90

abbrev lower : ℕ → Bool
lower c = leb 97 c && leb c 122

-- Texts of ASCII alone
abbrev pub ascii : Letters
ascii = record {
  runes = λ s. s;
  text = λ rs. rs;
  is_letter = λ c. upper c || lower c;
  is_digit = λ c. leb 48 c && leb c 57;
  is_upper = upper;
  is_lower = lower;
  to_lower = λ c. if upper c then c + 32 else c;
  to_upper = λ c. if lower c then c - 32 else c;
}

abbrev pub whole : Floats
whole = record {
  F = ℤ;
  F32 = ℤ;
  of_int = λ z. z;
  widen = λ z. z;
  parse = λ s. positive (parse_uint s);
  format = print_int;
  sprint = print_int;
  sprint32 = print_int;
  small_integral = some;
  truncate = λ z. z;
  times = times_int;
  minus = λ a b. plus_int a (opposite b);
  over = λ a b. a;
  same = int_same;
  less = int_less;
  power_of_ten = λ z. pos 1;
  letters = ascii;
  seconds = λ n. pos (n / 1000000000);
}
