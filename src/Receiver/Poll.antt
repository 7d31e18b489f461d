-- ===== src/Receiver/Poll.antt =====
-- receiver.go: `pollDevice`, one collection cycle of a device, with the state that it keeps. The mutexes
-- make each access one step. `Profiles` is the store: `Match`, and `Resolve` with `Compile` after it.
pub mod Others
pub mod Selected
pub mod Isolated
use networkdevicereceiver.Base.{
  ℕ, ◌+◌, ◌==◌, Bool, true, false, ◌&&◌, Option, none, some, List, [], ◌∷◌, ltb, if◌then◌else◌, Str,
  str_eq, is_blank, Floats,
}
use networkdevicereceiver.Base.Dict
use networkdevicereceiver.Base.Dict.{Dict}
use networkdevicereceiver.Snmp.Credentials.{Credentials, ConnectionConfig}
use networkdevicereceiver.Snmp.Value.{ValueStore, count}
use networkdevicereceiver.Snmp.Fetch.Session.{Session, FetchReport}
use networkdevicereceiver.Snmp.Fetch.Poll.{Fetched, fetch}
use networkdevicereceiver.Profile.Compile.{Compiled, fetch_oids, mark_missing}
use networkdevicereceiver.Naming.Registry
use networkdevicereceiver.Report.Text.{Regexes, Addresses}
use networkdevicereceiver.Report.Resource.{DeviceInfo}
use networkdevicereceiver.Report.Builder.Build.{Builder, new_builder, Built, build}
use networkdevicereceiver.Config.{Config, Libraries}
use networkdevicereceiver.Discovery.Registry.{
  Device, Registry, set_profile, mark_success, mark_failure,
}
use networkdevicereceiver.Discovery.Scan.{Dialed, Transport, probe_sys_object_id}
use networkdevicereceiver.Receiver.Fleet.{CredentialsOf, chosen, not_configured, credentials_for}

pub record Profiles (fl : Floats) (R : Type 0) : Type 0 where
  pub find : Str → Option Str
  pub load : Str → Option (Compiled fl R)

pub record DeviceState (fl : Floats) (R : Type 0) : Type 0 where
  pub builder : Builder fl
  pub compiled : Option (Compiled fl R)
  pub profile_name : Str

pub record Receiver (fl : Floats) (R : Type 0) (W : Type 0) : Type 0 where
  pub devices : Registry
  pub states : Dict (DeviceState fl R)
  pub world : W

pub data PollError : Type 0 where
  no_credentials cannot_open cannot_connect no_sys_object_id no_profile no_answer : PollError

pub data Polled : Type 0 where
  cancelled rejected : Polled
  poll_failed : PollError → Bool → Polled
  succeeded : ℕ → Polled

module _ (fl : Floats) (ad : Addresses) (re : Regexes) (W : Type 0) where
  abbrev pub Step : Type 0
  Step = Polled × Receiver fl re.R W

  -- failPoll, and forgetState for a device that is dropped
  abbrev pub after_failure : Device → PollError → Receiver fl re.R W → Registry × Bool → Step
  after_failure dev e s (devices, false) = (poll_failed e false, record s { devices = devices })
  after_failure dev e s (devices, true) =
      (poll_failed e true, record s { devices = devices; states = Dict.erase dev.id s.states })

  unfoldable pub fail_poll : Device → PollError → Receiver fl re.R W → Step
  fail_poll dev e s = after_failure dev e s (mark_failure dev.id s.devices)

  -- What reads the name of the profile, and the state that it leaves.
  pub data Ensured : Type 0 where
    ensured : Compiled fl re.R → DeviceState fl re.R → Receiver fl re.R W → Ensured
    not_ensured : PollError → Receiver fl re.R W → Ensured

  abbrev pub keep_state : Device → DeviceState fl re.R → Receiver fl re.R W → Receiver fl re.R W
  keep_state dev st s = record s { states = Dict.insert dev.id st s.states }

  module _ (reg : Registry.Registry fl) (ps : Profiles fl re.R) where
    abbrev pub state_of : Option (DeviceState fl re.R) → DeviceState fl re.R
    state_of none = record { builder = new_builder reg; compiled = none; profile_name = [] }
    state_of (some st) = st

    abbrev pub loaded :
        Device
        → Str
        → DeviceState fl re.R
        → Receiver fl re.R W
        → Option (Compiled fl re.R)
        → Ensured
    loaded dev wanted st s none = not_ensured no_profile s
    loaded dev wanted st s (some c) =
        let st' = record st { compiled = some c; profile_name = wanted } in
        ensured c st' (keep_state dev st' s)

    abbrev pub reuse_or_load :
        Device
        → Str
        → DeviceState fl re.R
        → Receiver fl re.R W
        → Option (Compiled fl re.R)
        → Ensured
    reuse_or_load dev wanted st s none = loaded dev wanted st s (ps.load wanted)
    reuse_or_load dev wanted st s (some c) =
        if str_eq st.profile_name wanted
        then ensured c st s
        else loaded dev wanted st s (ps.load wanted)

    abbrev pub select :
        Device → Str → DeviceState fl re.R → Receiver fl re.R W → Option Str → Ensured
    select dev sys_object_id st s none = not_ensured no_profile s
    select dev sys_object_id st s (some wanted) =
        reuse_or_load dev wanted st
          (record s { devices = set_profile dev.id sys_object_id wanted s.devices }) st.compiled

    abbrev pub probed_profile :
        Device → DeviceState fl re.R → Receiver fl re.R W → Option (Option Str × W) → Option Ensured
    probed_profile dev st s none = none
    probed_profile dev st s (some (none, w)) =
        some (not_ensured no_sys_object_id (record s { world = w }))
    probed_profile dev st s (some (some sys_object_id, w)) =
        some (select dev sys_object_id st (record s { world = w }) (ps.find sys_object_id))

    -- ensureProfile, with the device as the scheduler's snapshot shows it. `none` is a fetch that does not
    -- return.
    unfoldable pub ensure_profile : Session fl W → Device → Receiver fl re.R W → Option Ensured
    ensure_profile sess dev s =
        let st = state_of (Dict.lookup dev.id s.states) in
        let s' = keep_state dev st s in
        if is_blank dev.profile_name
        then if is_blank dev.sys_object_id
          then probed_profile dev st s' (probe_sys_object_id fl sess s.world)
          else some (select dev dev.sys_object_id st s' (ps.find dev.sys_object_id))
        else some (reuse_or_load dev dev.profile_name st s' st.compiled)

    module _ (tr : Transport fl W) (consume : Built fl → W → Bool × W) (fuel : ℕ) (libs : Libraries)
        (c : Config) where
      abbrev info_of : Device → Str → DeviceInfo
      info_of dev profile_name = record {
        id = dev.id;
        address = dev.address;
        port = dev.port;
        subnet = dev.subnet;
        sys_object_id = dev.sys_object_id;
        profile_name = profile_name;
      }

      abbrev pub marked_success : Device → ℕ → ℕ × W → Receiver fl re.R W → Step
      marked_success dev points (seen, w) s =
          (succeeded points, record s { devices = mark_success dev.id seen s.devices; world = w })

      abbrev pub consumed : Device → ℕ → Bool × W → Receiver fl re.R W → Step
      consumed dev points (false, w) s = (rejected, record s { world = w })
      consumed dev points (true, w) s = marked_success dev points (tr.now w) s

      -- Nothing is passed to the pipeline if there is no datapoint.
      abbrev pub pass_on : Device → Built fl → Receiver fl re.R W → Step
      pass_on dev built s =
          if ltb 0 built.data_points
          then consumed dev built.data_points (consume built s.world) s
          else marked_success dev 0 (tr.now s.world) s

      -- From the build on.
      abbrev pub report :
          Device
          → Compiled fl re.R
          → DeviceState fl re.R
          → ValueStore fl
          → ℕ × W
          → Receiver fl re.R W
          → Step
      report dev compiled st values (now, w) s =
          let (built, builder) =
            build fl ad re (info_of dev st.profile_name) compiled values now st.builder in
          pass_on dev built
            (keep_state dev (record st { builder = builder }) (record s { world = w }))

      abbrev pub on_fetched :
          Device
          → Compiled fl re.R
          → DeviceState fl re.R
          → Receiver fl re.R W
          → Option (Fetched fl W)
          → Option Step
      on_fetched dev compiled st s none = none
      on_fetched dev compiled st s (some f) =
          let compiled' = mark_missing f.report.missing_oids compiled in
          let st' = record st { compiled = some compiled' } in
          let s' = keep_state dev st' (record s { world = f.world }) in
          some (
            if count fl f.store == 0
            then fail_poll dev no_answer s'
            else report dev compiled' st' f.store (tr.now f.world) s')

      abbrev pub on_ensured : Session fl W → Device → Option Ensured → Option Step
      on_ensured sess dev none = none
      on_ensured sess dev (some (not_ensured e s)) = some (fail_poll dev e s)
      on_ensured sess dev (some (ensured compiled st s)) =
          let (scalars, columns) = fetch_oids compiled in
          on_fetched dev compiled st s (fetch fl fuel sess scalars columns c.fetch s.world)

      -- defer session.Close()
      abbrev pub closing : Dialed fl W → Option Step → Option Step
      closing d none = none
      closing d (some (out, s)) = some (out, record s { world = d.close s.world })

      abbrev pub on_connected : Dialed fl W → Device → Receiver fl re.R W → Bool × W → Option Step
      on_connected d dev s (false, w) = some (fail_poll dev cannot_connect (record s { world = w }))
      on_connected d dev s (true, w) =
          closing d
            (on_ensured d.session dev (ensure_profile d.session dev (record s { world = w })))

      abbrev pub on_dialed : Device → Receiver fl re.R W → Option (Dialed fl W) × W → Option Step
      on_dialed dev s (none, w) = some (fail_poll dev cannot_open (record s { world = w }))
      on_dialed dev s (some d, w) = on_connected d dev s (d.connect w)

      abbrev connection : Device → Credentials → ConnectionConfig
      connection dev creds = record {
        host = dev.address;
        port = dev.port;
        credentials = creds;
        timeout = c.timeout;
        retries = c.retries;
      }

      abbrev pub with_credentials : Device → Receiver fl re.R W → CredentialsOf → Option Step
      with_credentials dev s (not_configured name) = some (fail_poll dev no_credentials s)
      with_credentials dev s (chosen creds) =
          on_dialed dev s (tr.dial (connection dev creds) s.world)

      abbrev pub unless_done : Device → Receiver fl re.R W → Bool × W → Option Step
      unless_done dev s (true, w) = some (cancelled, record s { world = w })
      unless_done dev s (false, w) =
          with_credentials dev (record s { world = w }) (credentials_for libs c dev)

      -- pollDevice. `none` is a fetch that does not return.
      unfoldable pub poll_device : Device → Receiver fl re.R W → Option Step
      unfolding fail_poll ensure_profile
      poll_device dev s = unless_done dev s (tr.is_done s.world)
