-- ===== src/Tests/Report.antt =====
-- internal/naming and internal/report at concrete inputs.
use networkdevicereceiver.Base.{
  ℕ, All, ◌++◌, ◌≡◌, refl, [], ◌∷◌, lit, Str, pos, trim_left, trim_space, trim_suffix, split,
  split_onto, join, str_eq, has_prefix,
}
use networkdevicereceiver.Base.Dict
use networkdevicereceiver.Naming.Fallback.{fallback_name}
use networkdevicereceiver.Naming.Fallback.Charset.{IsEncoding, IsName, fallback_name-IsName}
use networkdevicereceiver.Naming.Registry.{
  Registry, default_options, resolve, semconv, datadog_compat, both, generated_entry, gauge,
}
use networkdevicereceiver.Naming.Registry.Schemes.{IsUnion, under, resolve-IsUnion}
use networkdevicereceiver.Report.Pool.{Pool, Offer, add, new_metric_pool}
use networkdevicereceiver.Report.Pool.Offers.{view, after_offer, add-offer}
use networkdevicereceiver.Report.Pool.Placed.{IsPlaced}
use networkdevicereceiver.Report.Pool.Offers.Streams.{IsSound}
use networkdevicereceiver.Tests.Floats.{whole, ascii}

fallback :
    fallback_name ascii (lit "snmp") (lit "IF-MIB") (lit "ifHCInOctets")
    ≡ lit "snmp.if.if_hc_in_octets"
unfolding fallback_name trim_left trim_space trim_suffix split split_onto join str_eq has_prefix
fallback = refl

ascii_apart : (s t : Str) (c : ℕ) → ascii.runes (s ++ c ∷ t) ≡ ascii.runes s ++ c ∷ ascii.runes t
ascii_apart s t c = refl

every_rune : (s : Str) → All (λ r. Unit {0}) s
every_rune [] = tt
every_rune (c ∷ s) = (tt, every_rune s)

ascii-IsEncoding : IsEncoding ascii (λ r. Unit {0})
ascii-IsEncoding = record {
  nothing = refl;
  apart = λ s t c h. ascii_apart s t c;
  decoded = every_rune;
  kept = λ rs h. refl;
  underscore = tt;
}

fallback_name-IsName_example :
    IsName ascii ascii-IsEncoding
      (fallback_name ascii (lit "snmp") (lit "IF-MIB") (lit "ifHCInOctets"))
fallback_name-IsName_example =
    fallback_name-IsName ascii ascii-IsEncoding (lit "snmp") (lit "IF-MIB") (lit "ifHCInOctets")
      (refl, (refl, (refl, (refl, tt))))

abbrev curated : Registry whole
curated = record {
  opts = default_options;
  entries = (lit "ifSpeed", generated_entry (lit "hw.network.bandwidth.limit")) ∷ [];
  system_entries = [];
}

resolve-IsUnion_example :
    IsUnion
      (resolve (under both curated) (lit "IF-MIB") (lit "ifSpeed"))
      (resolve (under semconv curated) (lit "IF-MIB") (lit "ifSpeed"))
      (resolve (under datadog_compat curated) (lit "IF-MIB") (lit "ifSpeed"))
resolve-IsUnion_example = resolve-IsUnion curated (lit "IF-MIB") (lit "ifSpeed")

abbrev speed : Offer whole
speed = record {
  name = lit "m";
  unit = lit "1";
  instrument = gauge;
  attrs = (lit "k", lit "v") ∷ [];
  value = pos 7;
  ts = 5;
  priority = pos 0;
}

abbrev pool : Pool whole
pool = new_metric_pool []

add-offer_example :
    IsSound (add speed pool).0.heap (add speed pool).0.streams
    × IsPlaced (add speed pool).0
    × ((key : Str)
        → view (add speed pool).0 key ≡ after_offer speed (add speed pool).1 key (view pool key))
unfolding new_metric_pool Dict.lookup
add-offer_example =
    add-offer speed pool (record { inside = λ k s e. cc; apart = λ k j s t e g h. cc })
      (record { named = λ name at e. cc; placed = λ key s e. cc })
