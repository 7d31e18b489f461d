-- ===== src/Tests/Credentials.antt =====
-- internal/snmp/session.go at concrete inputs.
use networkdevicereceiver.Base.{
  ◌≡◌, refl, ◌↔◌, false, some, none, [], lit, trim_prefix, has_prefix, str_eq, keep, pos, is_blank,
}
use networkdevicereceiver.Snmp.Credentials.{
  Credentials, ConnectionConfig, Client, opened, new_session, validate, check_as, check_v3,
  snmp_version, switch, auth_protocol, priv_protocol, squeeze, security_level, auth_priv,
  auth_no_priv, no_auth, no_priv,
}
use networkdevicereceiver.Snmp.Credentials.Coherent.{
  validate-new_session, private_iff, key_without_protocol,
}

abbrev private : Credentials
private = record {
  version = lit "v3";
  community = [];
  user = lit "u";
  auth_protocol = lit "sha-256";
  auth_key = lit "a";
  priv_protocol = lit "aes";
  priv_key = lit "p";
  context_name = [];
}

abbrev target : ConnectionConfig
target = record {
  host = lit "h";
  port = 0;
  credentials = private;
  timeout = pos 0;
  retries = pos 1;
}

validate-new_session_example : (client : Client) × (new_session target ≡ opened client)
unfolding validate check_as check_v3 snmp_version switch auth_protocol priv_protocol squeeze str_eq
    keep trim_prefix has_prefix
validate-new_session_example = validate-new_session target refl

private_iff_example :
    ((security_level private ≡ auth_priv) ↔ (is_blank private.priv_protocol ≡ false))
    × (private.priv_protocol ≡ lit "-"
        → (security_level private ≡ auth_priv)
          × (priv_protocol private.priv_protocol ≡ some no_priv))
unfolding validate check_as check_v3 snmp_version switch auth_protocol priv_protocol squeeze str_eq
    keep trim_prefix has_prefix
private_iff_example = private_iff private refl refl

abbrev unnamed : Credentials
unnamed = record private { auth_protocol = []; priv_protocol = []; priv_key = [] }

key_without_protocol_example :
    (validate unnamed ≡ none)
    × (security_level unnamed ≡ auth_no_priv)
    × (auth_protocol unnamed.auth_protocol ≡ some no_auth)
unfolding snmp_version switch str_eq trim_prefix has_prefix
key_without_protocol_example = key_without_protocol unnamed refl refl refl refl refl refl
