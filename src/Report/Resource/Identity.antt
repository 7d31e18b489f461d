-- ===== src/Report/Resource/Identity.antt =====
-- internal/report/builder.go: the attributes by which a resource tells its device.
use networkdevicereceiver.Base.{
  ◌≡◌, refl, Bool-cases, false, some, Option-cases, inl, inr, [], ◌∷◌, arith, Str, lit, str_eq,
  str_eq_iff, str_eq_refl, is_blank,
}
use networkdevicereceiver.Base.Dict
use networkdevicereceiver.Base.Dict.{Dict, lookup-insert}
use networkdevicereceiver.Report.Row.{put_unless_blank}
use networkdevicereceiver.Report.Resource.{
  DeviceInfo, field_attribute, put_fields, put_absent, put_all_absent, identity_attributes,
  resource_attributes,
}

field_attribute-is_not_id : (field : Str) → str_eq (field_attribute field) (lit "host.id") ≡ false
unfolding field_attribute str_eq
field_attribute-is_not_id field = ground arith

put_absent-keeps :
    (k v j x : Str) (m : Dict Str)
    → Dict.lookup j m ≡ some x
    → Dict.lookup j (put_absent k v m) ≡ some x
unfolding put_absent
put_absent-keeps k v j x m e = elim (Option-cases (Dict.lookup k m)) [
  | inl new ↦ rw (new, put_absent) (ground (arith, str_eq_iff k j, lookup-insert k j v m))
  | inr (t, known) ↦ rw (known, put_absent) e
]

put_absent-present :
    (k v : Str) (m : Dict Str) → (x : Str) × (Dict.lookup k (put_absent k v m) ≡ some x)
unfolding put_absent
put_absent-present k v m = elim (Option-cases (Dict.lookup k m)) [
  | inl new ↦ (v, rw (new, put_absent) (rw (lookup-insert k k v m, str_eq_refl k) refl))
  | inr (t, known) ↦ (t, rw (known, put_absent) known)
]

put_all_absent-keeps :
    (tags : Dict Str) (j x : Str) (m : Dict Str)
    → Dict.lookup j m ≡ some x
    → Dict.lookup j (put_all_absent tags m) ≡ some x
unfolding put_all_absent
put_all_absent-keeps [] j x m e = e
put_all_absent-keeps ((k, v) ∷ tags) j x m e =
    put_all_absent-keeps tags j x (put_absent k v m) (put_absent-keeps k v j x m e)

put_fields-keeps :
    (fields : Dict Str) (x : Str) (m : Dict Str)
    → Dict.lookup (lit "host.id") m ≡ some x
    → Dict.lookup (lit "host.id") (put_fields fields m) ≡ some x
unfolding put_fields
put_fields-keeps [] x m e = e
put_fields-keeps ((field, value) ∷ fields) x m e =
    put_fields-keeps fields x (Dict.insert (field_attribute field) value m) (
      rw
        (
          lookup-insert (field_attribute field) (lit "host.id") value m,
          field_attribute-is_not_id field,
        )
        e)

put_unless_blank-keeps :
    (k v j x : Str) (m : Dict Str)
    → str_eq k j ≡ false
    → Dict.lookup j m ≡ some x
    → Dict.lookup j (put_unless_blank k v m) ≡ some x
unfolding put_unless_blank
put_unless_blank-keeps k v j x m other e = elim (Bool-cases (is_blank v)) [
  | inl blank ↦ rw blank e
  | inr filled ↦ rw filled (rw (lookup-insert k j v m, other) e)
]

identity-id :
    (dev : DeviceInfo) → Dict.lookup (lit "host.id") (identity_attributes dev) ≡ some dev.id
unfolding identity_attributes str_eq
identity-id dev =
    put_unless_blank-keeps (lit "snmp.subnet") dev.subnet (lit "host.id") dev.id _ refl (
      put_unless_blank-keeps (lit "snmp.profile") dev.profile_name (lit "host.id") dev.id _ refl (
        put_unless_blank-keeps (lit "snmp.device.sys_object_id") dev.sys_object_id (lit "host.id")
          dev.id _ refl
          (rw (lookup-insert (lit "snmp.device.ip") (lit "host.id") dev.address)
            (rw (lookup-insert (lit "host.id")) refl))))

-- Whatever the inventory that the profile collects from the device, and whatever tags it adds: host.id is
-- the device's id, and there is a host.name.
pub resource_attributes-identity :
    (dev : DeviceInfo) (inventory device_tags : Dict Str)
    → (Dict.lookup (lit "host.id") (resource_attributes dev inventory device_tags) ≡ some dev.id)
      × (name : Str) × (Dict.lookup
            (lit "host.name")
            (resource_attributes dev inventory device_tags)
          ≡ some name)
unfolding resource_attributes
resource_attributes-identity dev inventory device_tags = (
  put_absent-keeps (lit "host.name") dev.address (lit "host.id") dev.id _ (
      put_all_absent-keeps device_tags (lit "host.id") dev.id _
        (put_fields-keeps inventory dev.id (identity_attributes dev) (identity-id dev))),
  (put_absent-present (lit "host.name") dev.address _).0,
  (put_absent-present (lit "host.name") dev.address _).1,
)
