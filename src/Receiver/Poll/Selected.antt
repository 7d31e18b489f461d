-- ===== src/Receiver/Poll/Selected.antt =====
-- receiver.go: `ensureProfile` leaves the other devices alone.
use networkdevicereceiver.Base.{
  ◌≡◌, ◌∙◌, Bool-cases, inl, inr, false, Option, none, some, Str, str_eq, is_blank, Floats,
}
use networkdevicereceiver.Base.Dict
use networkdevicereceiver.Base.Dict.{Dict, lookup-insert, lookup-erase}
use networkdevicereceiver.Snmp.Fetch.Session.{Session}
use networkdevicereceiver.Profile.Compile.{Compiled}
use networkdevicereceiver.Naming.Registry
use networkdevicereceiver.Report.Text.{Regexes, Addresses}
use networkdevicereceiver.Discovery.Registry.{Device, set_profile}
use networkdevicereceiver.Discovery.Scan.{probe_sys_object_id}
use networkdevicereceiver.Receiver.Poll.{
  Profiles, DeviceState, Receiver, state_of, loaded, reuse_or_load, select, probed_profile,
  ensure_profile,
}
use networkdevicereceiver.Receiver.Poll.Others.{Apart, EnsuredApart, update-other, keep_state-Apart}

module _ (fl : Floats) (ad : Addresses) (re : Regexes) (W : Type 0) (dev : Device) (j : Str)
    (other : str_eq dev.id j ≡ false) (start : Receiver fl re.R W) where
  module _ (reg : Registry.Registry fl) (ps : Profiles fl re.R) where
    loaded-Apart :
        (wanted : Str) (st : DeviceState fl re.R) (t : Receiver fl re.R W)
        (o : Option (Compiled fl re.R))
        → Apart fl ad re W j start t
        → EnsuredApart fl ad re W j start (some (loaded fl ad re W reg ps dev wanted st t o))
    loaded-Apart wanted st t none h = h
    loaded-Apart wanted st t (some c) h =
        keep_state-Apart fl ad re W dev j other start
          (record st { compiled = some c; profile_name = wanted }) t h

    reuse_or_load-Apart :
        (wanted : Str) (st : DeviceState fl re.R) (t : Receiver fl re.R W)
        (o : Option (Compiled fl re.R))
        → Apart fl ad re W j start t
        → EnsuredApart fl ad re W j start (some (reuse_or_load fl ad re W reg ps dev wanted st t o))
    reuse_or_load-Apart wanted st t none h = loaded-Apart wanted st t (ps.load wanted) h
    reuse_or_load-Apart wanted st t (some c) h = elim (Bool-cases (str_eq st.profile_name wanted)) [
      | inl same ↦ rw same h
      | inr stale ↦ rw stale (loaded-Apart wanted st t (ps.load wanted) h)
    ]

    select-Apart :
        (sys_object_id : Str) (st : DeviceState fl re.R) (t : Receiver fl re.R W) (o : Option Str)
        → Apart fl ad re W j start t
        → EnsuredApart fl ad re W j start (some (select fl ad re W reg ps dev sys_object_id st t o))
    unfolding set_profile
    select-Apart sys_object_id st t none h = h
    select-Apart sys_object_id st t (some wanted) h =
        reuse_or_load-Apart wanted st _ st.compiled (record {
          entry =
              update-other dev.id j _ (Dict.lookup dev.id t.devices.devices) t.devices other
              ∙ h.entry;
          kept = h.kept;
        })

    probed-Apart :
        (st : DeviceState fl re.R) (t : Receiver fl re.R W) (o : Option (Option Str × W))
        → Apart fl ad re W j start t
        → EnsuredApart fl ad re W j start (probed_profile fl ad re W reg ps dev st t o)
    probed-Apart st t none h = tt
    probed-Apart st t (some (none, w)) h = record { entry = h.entry; kept = h.kept }
    probed-Apart st t (some (some sys, w)) h =
        select-Apart sys st (record t { world = w }) (ps.find sys)
          (record { entry = h.entry; kept = h.kept })

    pub ensure_profile-Apart :
        (sess : Session fl W) (t : Receiver fl re.R W)
        → Apart fl ad re W j start t
        → EnsuredApart fl ad re W j start (ensure_profile fl ad re W reg ps sess dev t)
    unfolding ensure_profile
    ensure_profile-Apart sess t h =
        let st = state_of fl ad re W reg ps (Dict.lookup dev.id t.states) in
        let h' = keep_state-Apart fl ad re W dev j other start st t h in
        elim (Bool-cases (is_blank dev.profile_name)) [
          | inr pinned ↦ rw pinned (reuse_or_load-Apart dev.profile_name st _ st.compiled h')
          | inl unpinned ↦ elim (Bool-cases (is_blank dev.sys_object_id)) [
            | inl unknown ↦
                rw (unpinned, unknown) (probed-Apart st _ (probe_sys_object_id fl sess t.world) h')
            | inr known ↦
                rw (unpinned, known)
                  (select-Apart dev.sys_object_id st _ (ps.find dev.sys_object_id) h')
          ]
        ]
