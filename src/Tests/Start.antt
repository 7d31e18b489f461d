-- ===== src/Tests/Start.antt =====
-- Start of receiver.go at concrete inputs.
use networkdevicereceiver.Base.{ℕ, ◌≡◌, refl, true, none, some, [], str_eq}
use networkdevicereceiver.Naming.Registry
use networkdevicereceiver.Naming.Registry.{default_options, normalize_entries, new}
use networkdevicereceiver.Config.{naming_options, scheme_of, create_default_config}
use networkdevicereceiver.Receiver.Lifecycle.{
  Client, client_of, Running, started, start, storage_client,
}
use networkdevicereceiver.Receiver.Lifecycle.Starts.{IsStarted, start-IsStarted}
use networkdevicereceiver.Tests.Floats.{whole}
use networkdevicereceiver.Tests.Fleet.{texts, one_device, accepted}

-- A storage that can be written, but not read.
abbrev broken : Client ℕ
broken = record {
  storage = record {
    marshal = λ devs. some [];
    unmarshal = λ s. none;
    read = λ w. none;
    write = λ s w. some w;
  };
  close = λ w. (true, w);
}

abbrev bare_registry : Registry.Registry whole
bare_registry = record { opts = default_options; entries = []; system_entries = [] }

built_bare : new {fl = whole} (naming_options one_device) [] [] ≡ Registry.built bare_registry
unfolding new normalize_entries naming_options scheme_of create_default_config str_eq
built_bare = refl

start-IsStarted_example :
    (r : Running whole ℕ) × (start whole texts one_device 7 0 true [] [] (λ name. client_of broken)
      ≡ started r)
    × IsStarted whole texts one_device r
unfolding storage_client create_default_config
start-IsStarted_example =
    start-IsStarted whole texts one_device 7 0 [] [] (λ name. client_of broken) bare_registry
      (some broken) accepted built_bare refl
