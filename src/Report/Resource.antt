-- ===== src/Report/Resource.antt =====
-- internal/report/builder.go: the attributes of the resource, which identify the device.
pub mod Identity
use networkdevicereceiver.Base.{
  Bool, Option, none, some, List, [], ◌∷◌, ◌++◌, ◌||◌, if◌then◌else◌, Str, lit, str_eq, is_blank, ℕ,
  Floats, true, false,
}
use networkdevicereceiver.Base.Dict
use networkdevicereceiver.Base.Dict.{Dict}
use networkdevicereceiver.Profile.Definition.{
  SymbolConfig, MetadataField, MetadataResourceConfig, ProfileDefinition,
}
use networkdevicereceiver.Snmp.Value.{ResultValue, ValueStore, scalar}
use networkdevicereceiver.Report.Text.{Addresses, Texted, shaped, failed, string_value_no_compile}
use networkdevicereceiver.Report.Row.{put_unless_blank}

pub record DeviceInfo : Type 0 where
  pub id : Str
  pub address : Str
  pub port : ℕ
  pub subnet : Str
  pub sys_object_id : Str
  pub profile_name : Str

-- The attribute that a field of the inventory becomes.
unfoldable pub field_attribute : Str → Str
field_attribute field =
    if str_eq field (lit "name") || str_eq field (lit "sys_name")
    then lit "host.name"
    else if str_eq field (lit "vendor")
    then lit "device.manufacturer"
    else if str_eq field (lit "model")
    then lit "device.model.identifier"
    else if str_eq field (lit "os_name")
    then lit "os.name"
    else if str_eq field (lit "os_version") || str_eq field (lit "version")
    then lit "os.version"
    else if str_eq field (lit "serial_number")
    then lit "snmp.device.serial_number"
    else lit "snmp.device." ++ field

unfoldable pub put_fields : Dict Str → Dict Str → Dict Str
put_fields [] attrs = attrs
put_fields ((field, value) ∷ fields) attrs =
    put_fields fields (Dict.insert (field_attribute field) value attrs)

-- if _, exists := attrs.Get(k); !exists { attrs.PutStr(k, v) }
unfoldable pub put_absent : Str → Str → Dict Str → Dict Str
put_absent key value attrs = elim (Dict.lookup key attrs) [
  | none ↦ Dict.insert key value attrs
  | some taken ↦ attrs
]

unfoldable pub put_all_absent : Dict Str → Dict Str → Dict Str
unfolding put_absent
put_all_absent [] attrs = attrs
put_all_absent ((k, v) ∷ tags) attrs = put_all_absent tags (put_absent k v attrs)

unfoldable pub identity_attributes : DeviceInfo → Dict Str
identity_attributes dev = put_unless_blank (lit "snmp.subnet") dev.subnet (
    put_unless_blank (lit "snmp.profile") dev.profile_name (
      put_unless_blank (lit "snmp.device.sys_object_id") dev.sys_object_id
        (Dict.insert (lit "snmp.device.ip") dev.address (Dict.insert (lit "host.id") dev.id []))))

-- setResourceAttributes, on the inventory that `deviceMetadata` returns
unfoldable pub resource_attributes : DeviceInfo → Dict Str → Dict Str → Dict Str
unfolding identity_attributes put_fields put_all_absent put_absent
resource_attributes dev inventory device_tags =
    put_absent (lit "host.name") dev.address
      (put_all_absent device_tags (put_fields inventory (identity_attributes dev)))

module _ (fl : Floats) (ad : Addresses) where
  abbrev text_or_next : Texted → Option Str → Option Str
  text_or_next (failed e) rest = rest
  text_or_next (shaped text) rest = if is_blank text then rest else some text

  abbrev read_or_next : SymbolConfig fl → Option (ResultValue fl) → Option Str → Option Str
  read_or_next sym none rest = rest
  read_or_next sym (some v) rest = text_or_next (string_value_no_compile ad sym v) rest

  -- The first candidate with a text.
  unfoldable pub first_text : ValueStore fl → List (SymbolConfig fl) → Option Str
  first_text store [] = none
  first_text store (sym ∷ syms) = read_or_next sym (scalar fl store sym.oid) (first_text store syms)

  abbrev candidates : MetadataField fl → List (SymbolConfig fl)
  candidates field =
      if is_blank field.symbol.oid then field.symbols else field.symbol ∷ field.symbols

  unfoldable pub field_text : ValueStore fl → MetadataField fl → Option Str
  unfolding first_text
  field_text store field =
      if is_blank field.value then first_text store (candidates field) else some field.value

  abbrev put_text : Str → Option Str → Dict Str → Dict Str
  put_text name none out = out
  put_text name (some text) out = Dict.insert name text out

  unfoldable pub put_inventory : ValueStore fl → Dict (MetadataField fl) → Dict Str → Dict Str
  unfolding field_text
  put_inventory store [] out = out
  put_inventory store ((name, field) ∷ fields) out =
      put_inventory store fields (put_text name (field_text store field) out)

  abbrev inventory_of : ValueStore fl → Option (MetadataResourceConfig fl) → Dict Str
  inventory_of store none = []
  inventory_of store (some res) = put_inventory store res.fields []

  unfoldable pub device_metadata : ProfileDefinition fl → ValueStore fl → Dict Str
  unfolding put_inventory
  device_metadata def store = inventory_of store (Dict.lookup (lit "device") def.metadata)
