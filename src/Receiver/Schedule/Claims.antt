-- ===== src/Receiver/Schedule/Claims.antt =====
-- receiver.go: the marks in `inFlight`, and what holds one.
use networkdevicereceiver.Base.{
  ℕ, suc, ◌+◌, ◌<◌, ◌≤◌, ◌≡◌, refl, Bool, Bool-cases, true, ◌&&◌, Option, none, some, inl, inr,
  List, [], ◌∷◌, arith, ltb, if◌then◌else◌, length, is_empty, Str, str_eq, str_eq_iff,
}
use networkdevicereceiver.Base.Dict
use networkdevicereceiver.Base.Dict.{Dict, lookup-insert, lookup-erase}
use networkdevicereceiver.Receiver.Schedule.{
  Schedule, new_schedule, Event, look, send, polled, cleared, prune, mem, remove_one, busy,
  pollers_of, look_due, look_known, is_idle, send_to, step, steps,
}

abbrev one : Bool → ℕ
one b = if b then 1 else 0

unfoldable pub count : Str → List Str → ℕ
count id [] = 0
count id (x ∷ xs) = one (str_eq x id) + count id xs

count-remove_one :
    (id j : Str) (xs : List Str)
    → mem id xs ≡ true
    → count j xs ≡ one (str_eq id j) + count j (remove_one id xs)
unfolding count mem remove_one
count-remove_one id j [] h = cc h
count-remove_one id j (x ∷ xs) h =
    ground (arith, str_eq_iff x id, str_eq_iff x j, str_eq_iff id j, count-remove_one id j xs)

length-remove_one :
    (id : Str) (xs : List Str) → mem id xs ≡ true → length xs ≡ suc (length (remove_one id xs))
unfolding mem remove_one
length-remove_one id [] h = cc h
length-remove_one id (x ∷ xs) h = ground (arith, length-remove_one id xs)

-- The devices that the scheduler or a poller works on.
abbrev pub claims : Str → Schedule → ℕ
claims id s = count id s.sending + count id s.polling + count id s.clearing

module _ (configured interval : ℕ) where
  -- A mark for each that works on a device, and no more of them than marks; no more pollers at work
  -- than there are.
  pub record IsClaimed (s : Schedule) : Type 0 where
    pub marked : (id : Str) → claims id s ≡ one (busy id s)
    pub within : length s.polling + length s.clearing ≤ pollers_of configured
    pub single : length s.sending ≤ 1

  look_due-IsClaimed :
      (now : ℕ) (id : Str) (due : ℕ) (s : Schedule)
      → s.sending ≡ []
      → IsClaimed s
      → IsClaimed (look_due configured interval now id due s)
  unfolding count
  look_due-IsClaimed now id due s idle h = elim (Bool-cases (ltb now due)) [
    | inl early ↦ rw early h
    | inr come ↦ elim (Bool-cases (busy id s)) [
      | inl marked ↦ rw (come, marked) h
      | inr free ↦
          rw (come, free)
            (record {
              marked = λ j.
                  ground
                    (arith, h.marked j, idle, str_eq_iff id j, lookup-insert id j tt s.in_flight);
              within = h.within;
              single = omega arith;
            })
    ]
  ]

  look_known-IsClaimed :
      (now : ℕ) (id : Str) (due : Option ℕ) (s : Schedule)
      → s.sending ≡ []
      → IsClaimed s
      → IsClaimed (look_known configured interval now id due s)
  look_known-IsClaimed now id none s idle h = record {
    marked = h.marked;
    within = h.within;
    single = h.single;
  }
  look_known-IsClaimed now id (some due) s idle h = look_due-IsClaimed now id due s idle h

  send_to-IsClaimed :
      (ready : Bool) (to : List Str) (s : Schedule)
      → s.sending ≡ to
      → IsClaimed s
      → IsClaimed (send_to configured interval ready to s)
  unfolding count
  send_to-IsClaimed ready [] s at h = h
  send_to-IsClaimed ready (id ∷ more ∷ rest) s at h = absurd (ground (arith, at, h.single))
  send_to-IsClaimed ready (id ∷ []) s at h =
      elim (Bool-cases (ready && is_idle configured interval s)) [
        | inl taken ↦ rw taken (record {
          marked = λ j. ground (arith, h.marked j, at);
          within = ground (arith, taken);
          single = omega arith;
        })
        | inr skipped ↦ rw skipped (record {
          marked =
              λ j. ground (arith, h.marked j, at, str_eq_iff id j, lookup-erase id j s.in_flight);
          within = h.within;
          single = omega arith;
        })
      ]

  polled-IsClaimed :
      (id : Str) (s : Schedule) → IsClaimed s → IsClaimed (step configured interval (polled id) s)
  unfolding step count
  polled-IsClaimed id s h = elim (Bool-cases (mem id s.polling)) [
    | inl here ↦ rw here (record {
      marked = λ j. ground (arith, h.marked j, count-remove_one id j s.polling here);
      within = omega (arith, h.within, length-remove_one id s.polling here);
      single = h.single;
    })
    | inr absent ↦ rw absent h
  ]

  cleared-IsClaimed :
      (id : Str) (s : Schedule) → IsClaimed s → IsClaimed (step configured interval (cleared id) s)
  unfolding step count
  cleared-IsClaimed id s h = elim (Bool-cases (mem id s.clearing)) [
    | inl here ↦ rw here (record {
      marked = λ j. ground (
        arith,
        h.marked j,
        str_eq_iff id j,
        count-remove_one id j s.clearing here,
        lookup-erase id j s.in_flight,
      );
      within = omega (arith, h.within, length-remove_one id s.clearing here);
      single = h.single;
    })
    | inr absent ↦ rw absent h
  ]

  step-IsClaimed :
      (e : Event) (s : Schedule) → IsClaimed s → IsClaimed (step configured interval e s)
  unfolding step
  step-IsClaimed (polled id) s h = polled-IsClaimed id s h
  step-IsClaimed (cleared id) s h = cleared-IsClaimed id s h
  step-IsClaimed (send ready) s h = send_to-IsClaimed ready s.sending s refl h
  step-IsClaimed (look now id) s h = look_idle s.sending refl
    where
      look_idle :
          (at : List Str)
          → s.sending ≡ at
          → IsClaimed (
              if is_empty at
              then look_known configured interval now id (Dict.lookup id s.next_due) s
              else s)
      look_idle [] e = look_known-IsClaimed now id (Dict.lookup id s.next_due) s e h
      look_idle (x ∷ xs) e = h
  step-IsClaimed (prune live) s h = elim (Bool-cases (is_empty s.sending)) [
    | inl idle ↦ rw idle (record { marked = h.marked; within = h.within; single = h.single })
    | inr sends ↦ rw sends h
  ]

  pub new_schedule-IsClaimed : IsClaimed new_schedule
  unfolding new_schedule count Dict.lookup
  new_schedule-IsClaimed = record {
    marked = λ id. refl;
    within = omega arith;
    single = omega arith;
  }

  pub steps-IsClaimed :
      (es : List Event) (s : Schedule) → IsClaimed s → IsClaimed (steps configured interval es s)
  unfolding steps
  steps-IsClaimed [] s h = h
  steps-IsClaimed (e ∷ es) s h =
      steps-IsClaimed es (step configured interval e s) (step-IsClaimed e s h)

  -- In whatever order the scheduler and the pollers take their steps: no device is polled by two pollers at
  -- once, a device that is polled has its mark, and no more pollers are at work than there are.
  pub steps-one_poll :
      (es : List Event)
      → let s = steps configured interval es new_schedule in
        ((id : Str) → (count id s.polling ≤ 1) × (0 < count id s.polling → busy id s ≡ true))
        × (length s.polling + length s.clearing ≤ pollers_of configured)
  steps-one_poll es =
      let s = steps configured interval es new_schedule in
      let h = steps-IsClaimed es new_schedule new_schedule-IsClaimed in
      (λ id. (ground (arith, h.marked id), λ p. ground (arith, h.marked id)), h.within)
