-- ===== src/Receiver/Schedule.antt =====
-- receiver.go: `pollLoop`, the scheduler and its pollers. Times are numbers of nanoseconds. An event is
-- one step of a goroutine: the steps of the scheduler and of the pollers come in any order.
pub mod Slots
pub mod Claims
pub mod Due
use networkdevicereceiver.Base.{
  ℕ, zero, suc, ◌+◌, ◌-◌, ◌*◌, ◌%◌, ◌^◌, ◌/◌, Bool, true, false, not, ◌&&◌, Option, none, some,
  List, [], ◌∷◌, leb, ltb, if◌then◌else◌, length, is_empty, Str, str_eq, lit,
}
use networkdevicereceiver.Base.Dict
use networkdevicereceiver.Base.Dict.{Dict}
use networkdevicereceiver.Profile.Compile.{StrSet}
use networkdevicereceiver.Discovery.Registry.{Device}

-- x ^ y, bit by bit, for w bits
unfoldable pub xor : ℕ → ℕ → ℕ → ℕ
xor zero x y = 0
xor (suc w) x y = (x + y) % 2 + 2 * xor w (x / 2) (y / 2)

-- hash/fnv.New64a over the bytes
unfoldable pub fnv_from : ℕ → Str → ℕ
unfolding xor
fnv_from h [] = h
fnv_from h (c ∷ s) = fnv_from ((xor 64 h c * 1099511628211) % 2 ^ 64) s

unfoldable pub fnv64a : Str → ℕ
unfolding fnv_from
fnv64a s = fnv_from 14695981039346656037 s

-- An interval that is not positive is 0 here.
unfoldable pub offset_for : Str → ℕ → ℕ
unfolding fnv64a
offset_for id interval = if leb interval 0 then 0 else fnv64a id % interval

-- for !due.After(now) { due = due.Add(interval) }
unfoldable pub advance_for : ℕ → ℕ → ℕ → ℕ → ℕ
advance_for zero interval due now = due
advance_for (suc f) interval due now =
    let later = advance_for f interval (due + interval) now in if ltb now due then due else later

-- As many rounds as there are nanoseconds from due to now are enough.
unfoldable pub advance : ℕ → ℕ → ℕ → ℕ
unfolding advance_for
advance interval due now = advance_for (suc now - due) interval due now

-- What the scheduler and its pollers share. The scheduler is at `jobs <- device` for the device `sending`;
-- a poller has the job of a device in `polling`, or is back from it and about to clear its mark.
pub record Schedule : Type 0 where
  pub next_due : Dict ℕ
  pub in_flight : StrSet
  pub sending : List Str
  pub polling : List Str
  pub clearing : List Str

unfoldable pub new_schedule : Schedule
new_schedule = record { next_due = []; in_flight = []; sending = []; polling = []; clearing = [] }

-- `ready` tells whether an idle poller waits for a job.
pub data Event : Type 0 where
  look : ℕ → Str → Event
  send : Bool → Event
  polled cleared : Str → Event
  prune : List Str → Event

unfoldable pub mem : Str → List Str → Bool
mem id [] = false
mem id (x ∷ xs) = if str_eq x id then true else mem id xs

unfoldable pub remove_one : Str → List Str → List Str
remove_one id [] = []
remove_one id (x ∷ xs) = let rest = remove_one id xs in if str_eq x id then xs else x ∷ rest

unfoldable pub still_live : List Str → Dict ℕ → Dict ℕ
unfolding mem
still_live live [] = []
still_live live ((id, due) ∷ m) =
    let rest = still_live live m in if mem id live then (id, due) ∷ rest else rest

abbrev pub is_some {ℓ} : {A : Type ℓ} → Option A → Bool
is_some none = false
is_some (some x) = true

abbrev pub busy : Str → Schedule → Bool
busy id s = is_some (Dict.lookup id s.in_flight)

abbrev pub pollers_of : ℕ → ℕ
pollers_of n = if leb n 0 then 50 else n

-- `configured` is the number of pollers, 0 for one that is not positive.
module _ (configured interval : ℕ) where
  abbrev pub look_due : ℕ → Str → ℕ → Schedule → Schedule
  look_due now id due s = if ltb now due then s else if busy id s then s else record s {
    in_flight = Dict.insert id tt s.in_flight;
    next_due = Dict.insert id (advance interval due now) s.next_due;
    sending = id ∷ [];
  }

  -- A device of the tick, up to the send.
  abbrev pub look_known : ℕ → Str → Option ℕ → Schedule → Schedule
  look_known now id none s = record s {
    next_due = Dict.insert id (now + offset_for id interval) s.next_due;
  }
  look_known now id (some due) s = look_due now id due s

  abbrev pub is_idle : Schedule → Bool
  is_idle s = ltb (length s.polling + length s.clearing) (pollers_of configured)

  -- The send, or its default, with which the slot is skipped.
  abbrev pub send_to : Bool → List Str → Schedule → Schedule
  send_to ready [] s = s
  send_to ready (id ∷ rest) s =
      if ready && is_idle s
      then record s { sending = []; polling = id ∷ s.polling }
      else record s { sending = []; in_flight = Dict.erase id s.in_flight }

  unfoldable pub step : Event → Schedule → Schedule
  unfolding mem remove_one still_live offset_for advance
  step (look now id) s =
      if is_empty s.sending then look_known now id (Dict.lookup id s.next_due) s else s
  step (send ready) s = send_to ready s.sending s
  step (polled id) s =
      if mem id s.polling
      then record s { polling = remove_one id s.polling; clearing = id ∷ s.clearing }
      else s
  step (cleared id) s =
      if mem id s.clearing
      then record s { clearing = remove_one id s.clearing; in_flight = Dict.erase id s.in_flight }
      else s
  step (prune live) s =
      if is_empty s.sending then record s { next_due = still_live live s.next_due } else s

  unfoldable pub steps : List Event → Schedule → Schedule
  unfolding step
  steps [] s = s
  steps (e ∷ es) s = steps es (step e s)
