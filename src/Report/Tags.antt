-- ===== src/Report/Tags.antt =====
-- internal/report/tags.go: the tags of a row or of the device. A map that a call fills is passed
-- through it, with the error beside it.
use networkdevicereceiver.Base.{
  not, ◌&&◌, ◌==◌, Option, none, some, List, [], ◌∷◌, if◌then◌else◌, is_empty, Str, lit, is_blank,
  Floats,
}
use networkdevicereceiver.Base.Dict
use networkdevicereceiver.Base.Dict.{Dict}
use networkdevicereceiver.Profile.Definition.{MetricTagConfig}
use networkdevicereceiver.Profile.Compile.{Compiled, regexp}
use networkdevicereceiver.Snmp.Value.{ResultValue, ValueStore, scalar, column_value}
use networkdevicereceiver.Report.Text.{
  Regexes, Addresses, TextError, Texted, shaped, failed, string_value, expand_template,
}
use networkdevicereceiver.Report.Transform.{transform_index, index_position, apply_mapping}

pub data TagError : Type 0 where
  index_on_scalar bad_index bad_transform no_tag_name : TagError
  absent match_not_compiled match_failed : Str → TagError
  bad_text : TextError → TagError

abbrev pub Filled : Type 0
Filled = Dict Str × Option TagError

-- mergeTags(nil, sources...): later sources win.
unfoldable pub put_all : Dict Str → Dict Str → Dict Str
put_all dst [] = dst
put_all dst ((k, v) ∷ src) = put_all (Dict.insert k v dst) src

unfoldable pub merge_tags : List (Dict Str) → Dict Str → Dict Str
unfolding put_all
merge_tags [] dst = dst
merge_tags (src ∷ sources) dst = merge_tags sources (put_all dst src)

-- splitTag: key and value at the first colon; `none` for Go's false.
unfoldable pub split_tag : Str → Str × Option Str
split_tag [] = ([], none)
split_tag (c ∷ s) =
    let (key, value) = split_tag s in if c == b':' then ([], some s) else (c ∷ key, value)

abbrev or_true : Option Str → Str
or_true none = lit "true"
or_true (some v) = v

unfoldable pub put_static : List Str → Dict Str → Dict Str
unfolding split_tag
put_static [] out = out
put_static (tag ∷ tags) out =
    let (key, value) = split_tag tag in put_static tags (Dict.insert key (or_true value) out)

unfoldable pub static_tags : List Str → Dict Str
unfolding put_static
static_tags tags = put_static tags []

pub record TagResolver (fl : Floats) (re : Regexes) : Type 0 where
  pub compiled : Compiled fl re.R
  pub store : ValueStore fl

pub data TagValue (fl : Floats) : Type 0 where
  valued : ResultValue fl → TagValue fl
  missing : TagError → TagValue fl

module _ (re : Regexes) where
  -- The templates of `tags` at the match; one that finds nothing to expand is not reached.
  abbrev expanded_or : Option Str → Str
  expanded_or none = []
  expanded_or (some s) = s

  pub put_matches : re.R → Str → Dict Str → Dict Str → Dict Str
  put_matches r text [] out = out
  put_matches r text ((name, template) ∷ tags) out =
      put_matches r text tags
        (Dict.insert name (expanded_or (re.expand r (expand_template template) text)) out)

module _ (fl : Floats) (ad : Addresses) (re : Regexes) where
  abbrev found_or : TagError → Option (ResultValue fl) → TagValue fl
  found_or e none = missing e
  found_or e (some v) = valued v

  abbrev cell_or : TagResolver fl re → Str → Option (ResultValue fl) → TagValue fl
  cell_or r oid (some v) = valued v
  cell_or r oid none = found_or (absent oid) (scalar fl r.store oid)

  abbrev joined : TagResolver fl re → Str → Option Str → TagValue fl
  joined r oid none = missing bad_transform
  joined r oid (some target) = cell_or r oid (column_value fl r.store oid target)

  -- A row's value, joined over tables by the index transform, or else a scalar.
  pub tag_value : TagResolver fl re → MetricTagConfig fl → Option Str → TagValue fl
  tag_value r tag none = found_or (absent tag.symbol.oid) (scalar fl r.store tag.symbol.oid)
  tag_value r tag (some index) = joined r tag.symbol.oid (transform_index index tag.index_transform)

  abbrev matched : MetricTagConfig fl → Str → re.R → Option (List Str) → Dict Str → Filled
  matched tag text r none out = (out, some (match_failed tag.match))
  matched tag text r (some groups) out = (put_matches re r text tag.tags out, none)

  abbrev match_tags : MetricTagConfig fl → Str → Option re.R → Dict Str → Filled
  match_tags tag text none out = (out, some (match_not_compiled tag.match))
  match_tags tag text (some r) out = matched tag text r (re.submatch r text) out

  pub expand_match_tags : TagResolver fl re → MetricTagConfig fl → Str → Dict Str → Filled
  unfolding put_matches
  expand_match_tags r tag text out = match_tags tag text (regexp r.compiled tag.match) out

  abbrev put_text : TagResolver fl re → MetricTagConfig fl → Str → Dict Str → Filled
  put_text r tag text out =
      if not (is_blank tag.match) && not (is_empty tag.tags)
      then expand_match_tags r tag text out
      else if is_blank tag.tag
      then (out, some no_tag_name)
      else if is_blank text
      then (out, none)
      else (Dict.insert tag.tag text out, none)

  abbrev put_texted : TagResolver fl re → MetricTagConfig fl → Texted → Dict Str → Filled
  put_texted r tag (failed e) out = (out, some (bad_text e))
  put_texted r tag (shaped text) out = put_text r tag (apply_mapping fl tag.mapping text) out

  pub put_value : TagResolver fl re → MetricTagConfig fl → TagValue fl → Dict Str → Filled
  unfolding expand_match_tags
  put_value r tag (missing e) out = (out, some e)
  put_value r tag (valued v) out = put_texted r tag (string_value ad re r.compiled tag.symbol v) out

  abbrev put_position : MetricTagConfig fl → Option Str → Dict Str → Filled
  put_position tag none out = (out, some bad_index)
  put_position tag (some raw) out =
      (Dict.insert tag.tag (apply_mapping fl tag.mapping raw) out, none)

  pub index_tag : MetricTagConfig fl → Option Str → Dict Str → Filled
  index_tag tag none out = (out, some index_on_scalar)
  index_tag tag (some index) out = put_position tag (index_position index tag.index) out

  -- `none` for the index is a tag of the device.
  pub resolve_tag : TagResolver fl re → MetricTagConfig fl → Option Str → Dict Str → Filled
  unfolding tag_value put_value index_tag
  resolve_tag r tag index out =
      if is_blank tag.symbol.oid
      then index_tag tag index out
      else put_value r tag (tag_value r tag index) out

  pub resolve_tags :
      TagResolver fl re
      → List (MetricTagConfig fl)
      → Option Str
      → Dict Str
      → Dict Str × List TagError
  unfolding resolve_tag
  resolve_tags r [] index out = (out, [])
  resolve_tags r (tag ∷ tags) index out =
      let (out', err) = resolve_tag r tag index out in
      let (last, errs) = resolve_tags r tags index out' in
      (last, elim err [ none ↦ errs | some e ↦ e ∷ errs ])

  unfoldable pub row_tags :
      TagResolver fl re → List (MetricTagConfig fl) → Str → Dict Str × List TagError
  unfolding resolve_tags
  row_tags r tags index = resolve_tags r tags (some index) []

  unfoldable pub device_tags :
      TagResolver fl re → List (MetricTagConfig fl) → Dict Str × List TagError
  unfolding resolve_tags
  device_tags r tags = resolve_tags r tags none []
