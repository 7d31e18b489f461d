-- ===== src/Profile/Compile.antt =====
-- internal/profile/compile.go: what is fetched for a profile, and the OIDs that a device turned out
-- not to have. `regexp.Compile` is a parameter, and a set is a map to the unit.
pub mod Pruned
use networkdevicereceiver.Base.{
  ℕ, ◌+◌, Bool, true, false, not, Option, none, some, List, [], ◌∷◌, ◌++◌, if◌then◌else◌, length,
  keep, Str, lit, str_eq, is_blank, Floats,
}
use networkdevicereceiver.Base.Dict
use networkdevicereceiver.Base.Dict.{Dict}
use networkdevicereceiver.Base.Sort.{sort, str_less}
use networkdevicereceiver.Snmp.Oid.{canonical_oid}
use networkdevicereceiver.Profile.Definition.{
  SymbolConfig, MetricTagConfig, MetricsConfig, is_column, MetadataField, MetadataResourceConfig,
  ProfileDefinition,
}

abbrev pub StrSet : Type 0
StrSet = Dict (Unit {0})

pub data CompileError : Type 0 where
  invalid_regex : Str → Str → CompileError
  nothing_to_collect : ℕ → CompileError

-- What the closures of `Compile` share.
pub record Compiling (R : Type 0) : Type 0 where
  pub scalars : StrSet
  pub columns : StrSet
  pub regexes : Dict R
  pub errs : List CompileError

pub record Compiled (fl : Floats) (R : Type 0) : Type 0 where
  pub name : Str
  pub definition : ProfileDefinition fl
  pub scalar_oids : List Str
  pub column_oids : List Str
  pub regexes : Dict R
  pub missing : StrSet

pub data Compilation (fl : Floats) (R : Type 0) : Type 0 where
  compiled : Compiled fl R → Compilation fl R
  rejected : List CompileError → Compilation fl R

-- The set that a symbol goes into.
pub data Into : Type 0 where
  into_scalars into_columns : Into

unfoldable pub is_scalar_resource : Str → Bool
is_scalar_resource name = str_eq name (lit "device")

module _ {R : Type 0} (regex : Str → Option R) where
  pub keep_regex : Str → Str → Option R → Compiling R → Compiling R
  keep_regex pattern what none c = record c { errs = c.errs ++ invalid_regex what pattern ∷ [] }
  keep_regex pattern what (some re) c = record c { regexes = Dict.insert pattern re c.regexes }

  unfoldable pub compile_regex : Str → Str → Compiling R → Compiling R
  unfolding keep_regex
  compile_regex pattern what c =
      if is_blank pattern then c else elim (Dict.lookup pattern c.regexes) [
        | some re ↦ c
        | none ↦ keep_regex pattern what (regex pattern) c
      ]

unfoldable pub add_oid : {R : Type 0} → Into → Str → Compiling R → Compiling R
add_oid into_scalars oid c = record c { scalars = Dict.insert oid tt c.scalars }
add_oid into_columns oid c = record c { columns = Dict.insert oid tt c.columns }

module _ {fl : Floats} {R : Type 0} (regex : Str → Option R) where
  unfoldable pub add_symbol : Into → SymbolConfig fl → Compiling R → Compiling R
  unfolding add_oid compile_regex
  add_symbol into s c =
      if is_blank s.oid
      then c
      else compile_regex regex s.match_pattern (lit "match_pattern") (
          compile_regex regex s.extract_value (lit "extract_value")
            (add_oid into (canonical_oid s.oid) c))

  unfoldable pub add_symbols : Into → List (SymbolConfig fl) → Compiling R → Compiling R
  unfolding add_symbol
  add_symbols into [] c = c
  add_symbols into (s ∷ ss) c = add_symbols into ss (add_symbol into s c)

  unfoldable pub add_tags : Into → List (MetricTagConfig fl) → Compiling R → Compiling R
  unfolding add_symbol compile_regex
  add_tags into [] c = c
  add_tags into (tag ∷ tags) c =
      add_tags into tags
        (compile_regex regex tag.match (lit "match") (add_symbol into tag.symbol c))

  unfoldable pub add_metric : ℕ → MetricsConfig fl → Compiling R → Compiling R
  unfolding add_symbols add_tags
  add_metric i m c =
      if is_column m
      then add_tags into_columns m.metric_tags (add_symbols into_columns m.symbols c)
      else if not (is_blank m.symbol.oid)
      then add_tags into_scalars m.metric_tags (add_symbol into_scalars m.symbol c)
      else record c { errs = c.errs ++ nothing_to_collect i ∷ [] }

  unfoldable pub add_metrics : ℕ → List (MetricsConfig fl) → Compiling R → Compiling R
  unfolding add_metric
  add_metrics i [] c = c
  add_metrics i (m ∷ ms) c = add_metrics (i + 1) ms (add_metric i m c)

  unfoldable pub add_fields : Dict (MetadataField fl) → Compiling R → Compiling R
  unfolding add_symbols
  add_fields [] c = c
  add_fields ((name, field) ∷ fields) c =
      add_fields fields
        (add_symbols into_scalars field.symbols (add_symbol into_scalars field.symbol c))

  unfoldable pub add_resources : Dict (MetadataResourceConfig fl) → Compiling R → Compiling R
  unfolding add_fields add_tags
  add_resources [] c = c
  add_resources ((name, res) ∷ rest) c = add_resources rest (
      if is_scalar_resource name
      then add_tags into_scalars res.id_tags (add_fields res.fields c)
      else c)

  unfoldable pub finish_compile :
      ProfileDefinition fl → Compiling R → List CompileError → Compilation fl R
  finish_compile def c (e ∷ es) = rejected (e ∷ es)
  finish_compile def c [] = compiled (record {
    name = def.name;
    definition = def;
    scalar_oids = sort str_less (Dict.keys c.scalars);
    column_oids = sort str_less (Dict.keys c.columns);
    regexes = c.regexes;
    missing = [];
  })

  unfoldable pub compile : ProfileDefinition fl → Compilation fl R
  unfolding add_metrics add_tags add_resources finish_compile
  compile def =
      let start : Compiling R = record { scalars = []; columns = []; regexes = []; errs = [] } in
      let c =
        add_resources def.metadata
          (add_tags into_scalars def.metric_tags (add_metrics 0 def.metrics start)) in
      finish_compile def c c.errs

unfoldable pub add_missing_oids : List Str → StrSet → StrSet
add_missing_oids [] missing = missing
add_missing_oids (oid ∷ oids) missing =
    add_missing_oids oids (Dict.insert (canonical_oid oid) tt missing)

abbrev pub is_gone : Option (Unit {0}) → Bool
is_gone none = false
is_gone (some _) = true

unfoldable pub filter : StrSet → List Str → List Str
filter missing oids = keep (λ oid. not (is_gone (Dict.lookup oid missing))) oids

module _ {fl : Floats} {R : Type 0} where
  -- Regexp: `none` is Go's nil.
  unfoldable pub regexp : Compiled fl R → Str → Option R
  regexp c pattern = if is_blank pattern then none else Dict.lookup pattern c.regexes

  unfoldable pub mark_missing : List Str → Compiled fl R → Compiled fl R
  unfolding add_missing_oids
  mark_missing oids c = record c { missing = add_missing_oids oids c.missing }

  -- Scalars and columns still worth asking for.
  unfoldable pub fetch_oids : Compiled fl R → List Str × List Str
  unfolding filter
  fetch_oids c = elim c.missing [
    | [] ↦ (c.scalar_oids, c.column_oids)
    | oid ∷ oids ↦ (filter c.missing c.scalar_oids, filter c.missing c.column_oids)
  ]

  unfoldable pub missing_count : Compiled fl R → ℕ
  missing_count c = length c.missing
