-- ===== src/Receiver/Poll/Isolated.antt =====
-- receiver.go: what a poll of one device leaves of the others.
use networkdevicereceiver.Base.{
  ℕ, ◌==◌, ◌≡◌, refl, ◌∙◌, Bool, Bool-cases, inl, inr, true, false, Option, none, some, ltb, Str,
  str_eq, Floats,
}
use networkdevicereceiver.Base.Dict
use networkdevicereceiver.Base.Dict.{Dict, lookup-insert, lookup-erase}
use networkdevicereceiver.Snmp.Value.{ValueStore, count}
use networkdevicereceiver.Snmp.Fetch.Session.{Session}
use networkdevicereceiver.Snmp.Fetch.Poll.{Fetched, fetch}
use networkdevicereceiver.Profile.Compile.{Compiled, fetch_oids}
use networkdevicereceiver.Naming.Registry
use networkdevicereceiver.Report.Text.{Regexes, Addresses}
use networkdevicereceiver.Report.Builder.Build.{Built}
use networkdevicereceiver.Config.{Config, Libraries}
use networkdevicereceiver.Discovery.Registry.{Device, mark_success}
use networkdevicereceiver.Discovery.Scan.{Dialed, Transport}
use networkdevicereceiver.Receiver.Fleet.{CredentialsOf, chosen, not_configured, credentials_for}
use networkdevicereceiver.Receiver.Poll.{
  Profiles, DeviceState, Receiver, Step, Ensured, ensured, not_ensured, ensure_profile,
  marked_success, consumed, pass_on, report, on_fetched, on_ensured, closing, on_connected,
  on_dialed, with_credentials, unless_done, poll_device,
}
use networkdevicereceiver.Receiver.Poll.Others.{
  Apart, StepApart, EnsuredApart, update-other, keep_state-Apart, fail_poll-Apart,
}
use networkdevicereceiver.Receiver.Poll.Selected.{ensure_profile-Apart}

module _ (fl : Floats) (ad : Addresses) (re : Regexes) (W : Type 0) (dev : Device) (j : Str)
    (other : str_eq dev.id j ≡ false) (start : Receiver fl re.R W) where
  module _ (reg : Registry.Registry fl) (ps : Profiles fl re.R) where
    module _ (tr : Transport fl W) (consume : Built fl → W → Bool × W) (fuel : ℕ) (libs : Libraries)
        (c : Config) where
      marked_success-Apart :
          (points : ℕ) (now : ℕ × W) (t : Receiver fl re.R W)
          → Apart fl ad re W j start t
          → Apart fl ad re W j start
              (marked_success fl ad re W reg ps tr consume fuel libs c dev points now t).1
      unfolding mark_success
      marked_success-Apart points (seen, w) t h = record {
        entry =
            update-other dev.id j _ (Dict.lookup dev.id t.devices.devices) t.devices other
            ∙ h.entry;
        kept = h.kept;
      }

      consumed-Apart :
          (points : ℕ) (o : Bool × W) (t : Receiver fl re.R W)
          → Apart fl ad re W j start t
          → Apart fl ad re W j start
              (consumed fl ad re W reg ps tr consume fuel libs c dev points o t).1
      consumed-Apart points (false, w) t h = record { entry = h.entry; kept = h.kept }
      consumed-Apart points (true, w) t h = marked_success-Apart points (tr.now w) t h

      pass_on-Apart :
          (built : Built fl) (t : Receiver fl re.R W)
          → Apart fl ad re W j start t
          → Apart fl ad re W j start
              (pass_on fl ad re W reg ps tr consume fuel libs c dev built t).1
      pass_on-Apart built t h = elim (Bool-cases (ltb 0 built.data_points)) [
        | inl some_points ↦
            rw some_points (consumed-Apart built.data_points (consume built t.world) t h)
        | inr no_points ↦ rw no_points (marked_success-Apart 0 (tr.now t.world) t h)
      ]

      report-Apart :
          (compiled : Compiled fl re.R) (st : DeviceState fl re.R) (values : ValueStore fl)
          (now : ℕ × W) (t : Receiver fl re.R W)
          → Apart fl ad re W j start t
          → Apart fl ad re W j start
              (report fl ad re W reg ps tr consume fuel libs c dev compiled st values now t).1
      report-Apart compiled st values (now, w) t h = pass_on-Apart _ _ (
          keep_state-Apart fl ad re W dev j other start _ (record t { world = w })
            (record { entry = h.entry; kept = h.kept }))

      on_fetched-Apart :
          (compiled : Compiled fl re.R) (st : DeviceState fl re.R) (t : Receiver fl re.R W)
          (o : Option (Fetched fl W))
          → Apart fl ad re W j start t
          → StepApart fl ad re W j start
              (on_fetched fl ad re W reg ps tr consume fuel libs c dev compiled st t o)
      on_fetched-Apart compiled st t none h = tt
      on_fetched-Apart compiled st t (some f) h =
          let h' =
            keep_state-Apart fl ad re W dev j other start _ (record t { world = f.world })
              (record { entry = h.entry; kept = h.kept }) in
          elim (Bool-cases (count fl f.store == 0)) [
            | inl nothing ↦ rw nothing (fail_poll-Apart fl ad re W dev j other start _ _ h')
            | inr read ↦ rw read (report-Apart _ _ f.store (tr.now f.world) _ h')
          ]

      on_ensured-Apart :
          (sess : Session fl W) (o : Option (Ensured fl ad re W))
          → EnsuredApart fl ad re W j start o
          → StepApart fl ad re W j start
              (on_ensured fl ad re W reg ps tr consume fuel libs c sess dev o)
      on_ensured-Apart sess none h = tt
      on_ensured-Apart sess (some (not_ensured e t)) h =
          fail_poll-Apart fl ad re W dev j other start e t h
      on_ensured-Apart sess (some (ensured compiled st t)) h =
          on_fetched-Apart compiled st t
            (fetch fl fuel sess (fetch_oids compiled).0 (fetch_oids compiled).1 c.fetch t.world) h

      closing-Apart :
          (d : Dialed fl W) (o : Option (Step fl ad re W))
          → StepApart fl ad re W j start o
          → StepApart fl ad re W j start (closing fl ad re W reg ps tr consume fuel libs c d o)
      closing-Apart d none h = tt
      closing-Apart d (some (out, t)) h = record { entry = h.entry; kept = h.kept }

      on_connected-Apart :
          (d : Dialed fl W) (t : Receiver fl re.R W) (o : Bool × W)
          → Apart fl ad re W j start t
          → StepApart fl ad re W j start
              (on_connected fl ad re W reg ps tr consume fuel libs c d dev t o)
      on_connected-Apart d t (false, w) h =
          fail_poll-Apart fl ad re W dev j other start _ _
            (record { entry = h.entry; kept = h.kept })
      on_connected-Apart d t (true, w) h =
          let t' : Receiver fl re.R W = record t { world = w } in
          closing-Apart d _ (
            on_ensured-Apart d.session (ensure_profile fl ad re W reg ps d.session dev t') (
              ensure_profile-Apart fl ad re W dev j other start reg ps d.session t'
                (record { entry = h.entry; kept = h.kept })))

      with_credentials-Apart :
          (t : Receiver fl re.R W) (o : CredentialsOf)
          → Apart fl ad re W j start t
          → StepApart fl ad re W j start
              (with_credentials fl ad re W reg ps tr consume fuel libs c dev t o)
      with_credentials-Apart t (not_configured name) h =
          fail_poll-Apart fl ad re W dev j other start _ t h
      with_credentials-Apart t (chosen creds) h = dialed (tr.dial _ t.world)
        where
          dialed :
              (o : Option (Dialed fl W) × W)
              → StepApart fl ad re W j start
                  (on_dialed fl ad re W reg ps tr consume fuel libs c dev t o)
          dialed (none, w) =
              fail_poll-Apart fl ad re W dev j other start _ _
                (record { entry = h.entry; kept = h.kept })
          dialed (some d, w) = on_connected-Apart d t (d.connect w) h

      unless_done-Apart :
          (t : Receiver fl re.R W) (o : Bool × W)
          → Apart fl ad re W j start t
          → StepApart fl ad re W j start
              (unless_done fl ad re W reg ps tr consume fuel libs c dev t o)
      unless_done-Apart t (true, w) h = record { entry = h.entry; kept = h.kept }
      unless_done-Apart t (false, w) h =
          with_credentials-Apart (record t { world = w }) (credentials_for libs c dev)
            (record { entry = h.entry; kept = h.kept })

      -- When the poll of a device returns, with whatever outcome, another device's entry in the registry, its
      -- builder, its compiled profile and its profile's name are as they were.
      pub poll_device-apart :
          StepApart fl ad re W j start
            (poll_device fl ad re W reg ps tr consume fuel libs c dev start)
      unfolding poll_device
      poll_device-apart =
          unless_done-Apart start (tr.is_done start.world) (record { entry = refl; kept = refl })
