-- ===== src/Snmp/Batch.antt =====
-- internal/snmp/fetch.go: `batchSizer`, the adaptive size of a request. Sizes are natural numbers: up to a
-- configured size of 2^62 Go's int holds them and their doubles.
use networkdevicereceiver.Base.{
  ℕ, ◌+◌, ◌*◌, ◌/◌, ◌≤◌, ◌<◌, min, max, ◌≡◌, Bool, true, false, arith, ltb, leb, if◌then◌else◌,
}

pub record BatchSizer : Type 0 where
  pub cap : ℕ
  pub current : ℕ
  pub streak : ℕ

abbrev pub grow_after : ℕ
grow_after = 10

unfoldable pub new_batch_sizer : ℕ → BatchSizer
new_batch_sizer n =
    let top = if ltb n 1 then 1 else n in record { cap = top; current = top; streak = 0 }

-- The new state, and whether the batch could still shrink.
unfoldable pub shrink : BatchSizer → BatchSizer × Bool
shrink b =
    if leb b.current 1
    then (b, false)
    else (record b { current = max 1 (b.current / 2); streak = 0 }, true)

unfoldable pub success : BatchSizer → BatchSizer
success b =
    if leb b.cap b.current
    then b
    else if leb grow_after (b.streak + 1)
    then record b { current = min b.cap (b.current * 2); streak = 0 }
    else record b { streak = b.streak + 1 }

unfoldable pub reset : BatchSizer → BatchSizer
reset b = record b { current = b.cap; streak = 0 }

-- A request always has room for an OID and never passes the configured size.
pub record IsSized (b : BatchSizer) : Type 0 where
  pub room : 1 ≤ b.current
  pub within : b.current ≤ b.cap
  pub short : b.streak < grow_after

pub new_batch_sizer-IsSized : (n : ℕ) → IsSized (new_batch_sizer n)
unfolding new_batch_sizer
new_batch_sizer-IsSized n = ground arith

pub shrink-IsSized : (b : BatchSizer) → IsSized b → IsSized (shrink b).0
unfolding shrink
shrink-IsSized b h = ground arith

pub success-IsSized : (b : BatchSizer) → IsSized b → IsSized (success b)
unfolding success
success-IsSized b h = ground arith

pub reset-IsSized : (b : BatchSizer) → IsSized b → IsSized (reset b)
unfolding reset
reset-IsSized b h = ground arith

pub cap-shrink : (b : BatchSizer) → (shrink b).0.cap ≡ b.cap
unfolding shrink
cap-shrink b = ground arith

pub cap-success : (b : BatchSizer) → (success b).cap ≡ b.cap
unfolding success
cap-success b = ground arith

-- Of a sized batch: a shrink that is granted makes it strictly smaller, and one that is refused was
-- asked at a single OID and changes nothing.
pub shrink_progress :
    (b : BatchSizer)
    → IsSized b
    → ((shrink b).1 ≡ true → (shrink b).0.current < b.current)
      × ((shrink b).1 ≡ false → (b.current ≡ 1) × ((shrink b).0 ≡ b))
unfolding shrink
shrink_progress b h = ground arith
