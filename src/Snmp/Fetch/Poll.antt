-- ===== src/Snmp/Fetch/Poll.antt =====
-- internal/snmp/fetch.go: `Fetch`. It returns what it read along with the errors of both parts.
use networkdevicereceiver.Base.{ℕ, Option, none, some, List, [], ◌∷◌, Str, Floats}
use networkdevicereceiver.Snmp.Value.{ValueStore, new_value_store}
use networkdevicereceiver.Snmp.Fetch.Session.{
  Session, FetchConfig, Limits, with_defaults, FetchReport, new_report, FetchError,
}
use networkdevicereceiver.Snmp.Fetch.Scalars.{fetch_scalars}
use networkdevicereceiver.Snmp.Fetch.Columns.{fetch_columns}

infixl 5 ◌>>=◌
abbrev ◌>>=◌ : {A B : Type 0} → Option A → (A → Option B) → Option B
none >>= f = none
some a >>= f = f a

module _ (fl : Floats) where
  pub record Fetched (W : Type 0) : Type 0 where
    pub store : ValueStore fl
    pub report : FetchReport
    -- the errors of the scalars, then those of the columns
    pub scalar_errs : List FetchError
    pub column_errs : List FetchError
    pub world : W

  module _ {W : Type 0} where
    unfoldable pub poll_scalars : Session fl W → Limits → List Str → W → Option (Fetched W)
    poll_scalars sess lim [] w = some (record {
      store = new_value_store fl;
      report = new_report;
      scalar_errs = [];
      column_errs = [];
      world = w;
    })
    poll_scalars sess lim (oid ∷ oids) w = do
      s ← fetch_scalars fl sess lim.batch_size (oid ∷ oids) (new_value_store fl) new_report w
      some (record {
        store = s.store;
        report = s.report;
        scalar_errs = s.errs;
        column_errs = [];
        world = s.world;
      })

    unfoldable pub poll_columns :
        ℕ → Session fl W → Limits → List Str → Fetched W → Option (Fetched W)
    poll_columns fuel sess lim [] f = some f
    poll_columns fuel sess lim (oid ∷ oids) f = do
      s ← fetch_columns fl fuel sess lim (oid ∷ oids) f.store f.report f.world
      some (record f { store = s.store; report = s.report; column_errs = s.errs; world = s.world })

    -- `none` means that the walk's fuel ran out.
    unfoldable pub fetch :
        ℕ → Session fl W → List Str → List Str → FetchConfig → W → Option (Fetched W)
    unfolding poll_scalars poll_columns with_defaults
    fetch fuel sess scalar_oids column_oids cfg w = do
      let lim = with_defaults cfg
      f ← poll_scalars sess lim scalar_oids w
      poll_columns fuel sess lim column_oids f
