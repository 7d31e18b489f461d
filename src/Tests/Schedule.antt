-- ===== src/Tests/Schedule.antt =====
-- The scheduler of receiver.go at concrete inputs.
use networkdevicereceiver.Base.{
  ℕ, ◌+◌, ◌<◌, ◌≤◌, ◌≡◌, refl, arith, true, ◌&&◌, some, List, [], ◌∷◌, if◌then◌else◌, length, lit,
  Str, str_eq,
}
use networkdevicereceiver.Base.Dict
use networkdevicereceiver.Receiver.Schedule.{
  Schedule, new_schedule, Event, look, send, polled, cleared, prune, steps, busy, pollers_of,
  is_idle, fnv64a, xor,
}
use networkdevicereceiver.Receiver.Schedule.Claims.{count, steps-one_poll}
use networkdevicereceiver.Receiver.Schedule.Slots.{IsNextSlot}
use networkdevicereceiver.Receiver.Schedule.Due.{looked_and_sent, steps-due}

-- hash/fnv gives this for "a".
fnv64a-a : fnv64a (lit "a") ≡ 12638187200555641996
unfolding fnv64a xor
fnv64a-a = refl

abbrev morning : List Event
morning =
    look 100 (lit "r")
    ∷ look 1000 (lit "r")
    ∷ send true
    ∷ look 5000 (lit "r")
    ∷ send true
    ∷ polled (lit "r")
    ∷ cleared (lit "r")
    ∷ prune []
    ∷ []

steps-one_poll_example :
    ((id : Str)
      → (count id (steps 2 60 morning new_schedule).polling ≤ 1)
        × (0 < count id (steps 2 60 morning new_schedule).polling
            → busy id (steps 2 60 morning new_schedule) ≡ true))
    × (length (steps 2 60 morning new_schedule).polling
          + length (steps 2 60 morning new_schedule).clearing
        ≤ pollers_of 2)
steps-one_poll_example = steps-one_poll 2 60 morning

abbrev waiting : Schedule
waiting = record new_schedule { next_due = (lit "r", 100) ∷ [] }

steps-due_example :
    ((looked_and_sent 2 60 250 (lit "r") true waiting).polling
      ≡ (if true && is_idle 2 60 waiting then lit "r" ∷ waiting.polling else waiting.polling))
    × (busy (lit "r") (looked_and_sent 2 60 250 (lit "r") true waiting)
        ≡ (true && is_idle 2 60 waiting))
    × (next : ℕ) × (Dict.lookup (lit "r") (looked_and_sent 2 60 250 (lit "r") true waiting).next_due
        ≡ some next)
    × IsNextSlot 60 100 250 next
unfolding new_schedule Dict.lookup str_eq
steps-due_example =
    steps-due 2 60 250 (lit "r") 100 true waiting (omega arith) refl refl (omega arith) refl
