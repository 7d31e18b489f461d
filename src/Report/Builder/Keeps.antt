-- ===== src/Report/Builder/Keeps.antt =====
-- internal/report/builder.go: the datapoints of a symbol change the pool by `add` alone.
use networkdevicereceiver.Base.{ℕ, Option, none, some, List, [], ◌∷◌, Str, Floats}
use networkdevicereceiver.Base.Dict.{Dict}
use networkdevicereceiver.Snmp.Value.{ResultValue}
use networkdevicereceiver.Naming.Registry.{Instrument, Entry, StateSet, Resolution}
use networkdevicereceiver.Report.Pool.{Pool, PoolError, Offer, add}
use networkdevicereceiver.Report.Builder.{
  Emitting, Emitted, pooled, state_offer, and_then, emit_states, emit_state_set, emit_point,
  emit_name, emit_names,
}

-- A property of the pool that no offer ends.
pub record IsKept (fl : Floats) (P : Pool fl → Type 0) : Type 0 where
  pub keeps : (o : Offer fl) (p : Pool fl) → P p → P (add o p).0

module _ (fl : Floats) (P : Pool fl → Type 0) (kept : IsKept fl P) where
  pooled-keeps :
      (s : Emitting fl) (r : Pool fl × Option PoolError) → P r.0 → P (pooled fl s r).0.pool
  pooled-keeps s (p, none) h = h
  pooled-keeps s (p, some e) h = h

  and_then-keeps :
      (r : Emitted fl) (rest : Emitting fl → Emitted fl)
      → P r.0.pool
      → ((s : Emitting fl) → P s.pool → P (rest s).0.pool)
      → P (and_then fl r rest).0.pool
  and_then-keeps (s, []) rest h next = next s h
  and_then-keeps (s, e ∷ es) rest h next = h

  emit_states-keeps :
      (name : Str) (e : Entry fl) (set : StateSet) (active : Str) (attrs : Dict Str) (ts : ℕ)
      (states : List Str) (s : Emitting fl)
      → P s.pool
      → P (emit_states fl name e set active attrs ts states s).0.pool
  unfolding emit_states
  emit_states-keeps name e set active attrs ts [] s h = h
  emit_states-keeps name e set active attrs ts (state ∷ states) s h =
      let o = state_offer fl name e set state active attrs ts in
      and_then-keeps (pooled fl s (add o s.pool)) (emit_states fl name e set active attrs ts states)
        (pooled-keeps s (add o s.pool) (kept.keeps o s.pool h))
        (emit_states-keeps name e set active attrs ts states)

  emit_point-keeps :
      (res : Resolution fl) (i : Instrument) (v : ResultValue fl) (number : fl.F) (attrs : Dict Str)
      (ts : ℕ) (name : Str) (o : Option StateSet) (s : Emitting fl)
      → P s.pool
      → P (emit_point fl res i v number attrs ts name o s).0.pool
  unfolding emit_point emit_state_set
  emit_point-keeps res i v number attrs ts name none s h = pooled-keeps s _ (kept.keeps _ s.pool h)
  emit_point-keeps res i v number attrs ts name (some set) s h =
      emit_states-keeps name res.entry set _ attrs ts set.states s h

  pub emit_names-keeps :
      (res : Resolution fl) (i : Instrument) (v : ResultValue fl) (number : fl.F)
      (attrs : Str → Dict Str) (ts : ℕ) (names : List Str) (s : Emitting fl)
      → P s.pool
      → P (emit_names fl res i v number attrs ts names s).0.pool
  unfolding emit_names emit_name
  emit_names-keeps res i v number attrs ts [] s h = h
  emit_names-keeps res i v number attrs ts (name ∷ names) s h =
      and_then-keeps (emit_point fl res i v number (attrs name) ts name res.entry.state_set s)
        (emit_names fl res i v number attrs ts names)
        (emit_point-keeps res i v number (attrs name) ts name res.entry.state_set s h)
        (emit_names-keeps res i v number attrs ts names)
