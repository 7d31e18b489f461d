-- ===== src/Naming/Registry.antt =====
-- internal/naming/registry.go: the curated mappings and the naming schemes. The embedded file comes in
-- as its two lists of entries. An instrument that is neither empty nor one of the constants
-- is `other`.
pub mod Schemes
use networkdevicereceiver.Base.{
  ℕ, Bool, true, false, not, Option, none, some, List, [], ◌∷◌, ◌++◌, if◌then◌else◌, Str, lit,
  str_eq, is_blank, ℤ, pos, Floats,
}
use networkdevicereceiver.Base.Dict
use networkdevicereceiver.Base.Dict.{Dict}
use networkdevicereceiver.Naming.Fallback.{fallback_name}

pub data Instrument : Type 0 where
  unset gauge sum up_down_counter : Instrument
  other : Str → Instrument

-- Instruments are compared as texts.
unfoldable pub same_instrument : Instrument → Instrument → Bool
same_instrument unset unset = true
same_instrument gauge gauge = true
same_instrument sum sum = true
same_instrument up_down_counter up_down_counter = true
same_instrument (other a) (other b) = str_eq a b
same_instrument _ _ = false

pub record StateSet : Type 0 where
  pub attribute : Str
  pub states : List Str
  pub values : Dict Str

pub record TypeDispatch : Type 0 where
  pub type_symbol : Str
  pub cases : Dict Str
  pub scale_symbol : Str
  pub precision_symbol : Str

pub record Entry (fl : Floats) : Type 0 where
  pub metric : Str
  pub instrument : Instrument
  pub unit : Str
  pub attributes : Dict Str
  -- `none` is Go's zero, which stands for an unset scale
  pub scale : Option fl.F
  pub value_map : Dict fl.F
  pub state_set : Option StateSet
  pub type_dispatch : Option TypeDispatch
  pub component_identity : Bool
  pub priority : ℤ

pub data Scheme : Type 0 where
  semconv datadog_compat both : Scheme
  empty : Scheme
  unknown : Str → Scheme

pub record Options : Type 0 where
  pub scheme : Scheme
  pub fallback_namespace : Str
  pub system_namespace : Bool

abbrev pub default_options : Options
default_options = record {
  scheme = semconv;
  fallback_namespace = lit "snmp";
  system_namespace = true;
}

pub record Registry (fl : Floats) : Type 0 where
  pub opts : Options
  pub entries : Dict (Entry fl)
  pub system_entries : Dict (Entry fl)

-- What `New` fails with.
pub data NewError : Type 0 where
  unknown_scheme : Str → NewError
  needs_metric needs_states : Str → NewError

pub data Built (A : Type 0) : Type 0 where
  built : A → Built A
  invalid : NewError → Built A

pub record Resolution (fl : Floats) : Type 0 where
  pub names : List Str
  pub entry : Entry fl
  pub generated : Bool

abbrev or_semconv : Scheme → Scheme
or_semconv empty = semconv
or_semconv s = s

abbrev or_gauge : Instrument → Instrument
or_gauge unset = gauge
or_gauge i = i

abbrev with_state_attribute : StateSet → StateSet
with_state_attribute s = record s {
  attribute = if is_blank s.attribute then lit "hw.state" else s.attribute;
}

abbrev with_default_options : Options → Options
with_default_options o = record o {
  scheme = or_semconv o.scheme;
  fallback_namespace = if is_blank o.fallback_namespace then lit "snmp" else o.fallback_namespace;
}

abbrev pub compat_name : Str → Str
compat_name symbol = lit "snmp." ++ symbol

abbrev or_one : (fl : Floats) → Option fl.F → Option fl.F
or_one fl none = some (fl.of_int (pos 1))
or_one fl (some f) = some f

module _ {fl : Floats} where
  -- From the state set on.
  pub normalize_states : Str → Option StateSet → Entry fl → Built (Entry fl)
  normalize_states symbol none e = built e
  normalize_states symbol (some s) e = elim s.states [
    | [] ↦ invalid (needs_states symbol)
    | state ∷ states ↦ built (record e { state_set = some (with_state_attribute s) })
  ]

  abbrev nothing_to_emit : Entry fl → Bool
  nothing_to_emit e = elim e.type_dispatch [ none ↦ is_blank e.metric | some d ↦ false ]

  unfoldable pub normalize_entry : Str → Entry fl → Built (Entry fl)
  unfolding normalize_states
  normalize_entry symbol e =
      if nothing_to_emit e
      then invalid (needs_metric symbol)
      else normalize_states symbol e.state_set
          (record e { scale = or_one fl e.scale; instrument = or_gauge e.instrument })

  abbrev add_entry : Str → Built (Entry fl) → Built (Dict (Entry fl)) → Built (Dict (Entry fl))
  add_entry symbol (invalid err) rest = invalid err
  add_entry symbol (built e) (invalid err) = invalid err
  add_entry symbol (built e) (built m) = built (Dict.insert symbol e m)

  unfoldable pub normalize_entries : Dict (Entry fl) → Built (Dict (Entry fl))
  unfolding normalize_entry
  normalize_entries [] = built []
  normalize_entries ((symbol, e) ∷ m) =
      add_entry symbol (normalize_entry symbol e) (normalize_entries m)

  pub registry_of :
      Options → Built (Dict (Entry fl)) → Built (Dict (Entry fl)) → Built (Registry fl)
  registry_of o (invalid err) system = invalid err
  registry_of o (built m) (invalid err) = invalid err
  registry_of o (built m) (built s) = built (record { opts = o; entries = m; system_entries = s })

  -- New, on what the embedded file holds.
  unfoldable pub new : Options → Dict (Entry fl) → Dict (Entry fl) → Built (Registry fl)
  unfolding registry_of normalize_entries
  new o metrics system_metrics =
      let opts = with_default_options o in
      elim opts.scheme [
        | unknown s ↦ invalid (unknown_scheme s)
        | _ ↦ registry_of opts (normalize_entries metrics) (normalize_entries system_metrics)
      ]

  unfoldable pub apply_scheme : Scheme → Entry fl → Str → Bool → Resolution fl
  apply_scheme datadog_compat e symbol curated = record {
    names = compat_name symbol ∷ [];
    entry = record e { metric = compat_name symbol };
    generated = true;
  }
  apply_scheme both e symbol curated = record {
    names =
        if str_eq (compat_name symbol) e.metric
        then e.metric ∷ []
        else e.metric ∷ compat_name symbol ∷ [];
    entry = e;
    generated = not curated;
  }
  apply_scheme _ e symbol curated = record {
    names = e.metric ∷ [];
    entry = e;
    generated = not curated;
  }

  -- lookup: `none` is Go's false.
  unfoldable pub lookup_entry : Registry fl → Str → Option (Entry fl)
  lookup_entry r symbol = elim (Dict.lookup symbol r.entries) [
    | some e ↦ some e
    | none ↦ if r.opts.system_namespace then Dict.lookup symbol r.system_entries else none
  ]

  abbrev pub generated_entry : Str → Entry fl
  generated_entry name = record {
    metric = name;
    instrument = gauge;
    unit = [];
    attributes = [];
    scale = some (fl.of_int (pos 1));
    value_map = [];
    state_set = none;
    type_dispatch = none;
    component_identity = false;
    priority = pos 0;
  }

  abbrev pub resolve_found : Registry fl → Str → Str → Option (Entry fl) → Resolution fl
  resolve_found r mib symbol none =
      apply_scheme r.opts.scheme
        (generated_entry (fallback_name fl.letters r.opts.fallback_namespace mib symbol)) symbol
        false
  resolve_found r mib symbol (some e) = apply_scheme r.opts.scheme e symbol true

  -- Resolve, on the name of the symbol
  unfoldable pub resolve : Registry fl → Str → Str → Resolution fl
  unfolding lookup_entry
  resolve r mib symbol = resolve_found r mib symbol (lookup_entry r symbol)

  unfoldable pub resolve_dispatched : Registry fl → Str → Str → Option (Resolution fl)
  resolve_dispatched r symbol target = elim (Dict.lookup target r.entries) [
    | none ↦ none
    | some e ↦ some (apply_scheme r.opts.scheme e symbol true)
  ]
