-- ===== src/Snmp/Credentials/Coherent.antt =====
-- internal/snmp/session.go: what the validation of credentials promises to the session that is opened with them.
use networkdevicereceiver.Base.{
  ◌≡◌, refl, ap, ◌∙◌, keep, ◌↔◌, true, false, Option, none, some, arith, is_blank, str_eq, [], lit,
}
use networkdevicereceiver.Snmp.Credentials.{
  Credentials, ConnectionConfig, SnmpVersion, version1, version2c, version3, auth_priv,
  auth_no_priv, no_auth, no_priv, validate, check_as, check_v3, snmp_version, security_level,
  auth_protocol, priv_protocol, Auth, Priv, Client, opened, usm_of, open_as, open_valid,
  open_version, new_session, squeeze, switch,
}

opened_v3 :
    (cfg : ConnectionConfig) (a : Option Auth) (p : Option Priv)
    → check_v3 a p cfg.credentials ≡ none
    → (client : Client) × (usm_of cfg a p ≡ opened client)
unfolding check_v3 usm_of
opened_v3 cfg none p h = cc
opened_v3 cfg (some a) none h = cc
opened_v3 cfg (some a) (some p) h = (_, refl)

opened_as :
    (cfg : ConnectionConfig) (v : SnmpVersion)
    → check_as (some v) cfg.credentials ≡ none
    → (client : Client) × (open_as cfg v ≡ opened client)
unfolding check_as open_as
opened_as cfg version1 h = (_, refl)
opened_as cfg version2c h = (_, refl)
opened_as cfg version3 h =
    opened_v3 cfg (auth_protocol cfg.credentials.auth_protocol)
      (priv_protocol cfg.credentials.priv_protocol) (ground arith)

-- A session is opened with every set of credentials that `Validate` accepts.
pub validate-new_session :
    (cfg : ConnectionConfig)
    → validate cfg.credentials ≡ none
    → (client : Client) × (new_session cfg ≡ opened client)
unfolding validate new_session open_version open_valid
validate-new_session cfg h = by_version (snmp_version cfg.credentials.version) refl
  where
    by_version :
        (v : Option SnmpVersion)
        → snmp_version cfg.credentials.version ≡ v
        → (client : Client) × (open_version cfg v ≡ opened client)
    by_version none e = absurd (unfold check_as in ground (arith, e, h))
    by_version (some v) e =
        let k : check_as (some v) cfg.credentials ≡ none = rw e at h in rw h (opened_as cfg v k)

private_v3 :
    (c : Credentials) (a : Option Auth) (p : Option Priv)
    → check_v3 a p c ≡ none
    → (security_level c ≡ auth_priv) ↔ (is_blank c.priv_protocol ≡ false)
unfolding check_v3 security_level
private_v3 c none p h = cc
private_v3 c (some a) none h = cc
private_v3 c (some a) (some p) h = (ground arith, ground arith)

no_priv_hyphen : priv_protocol (lit "-") ≡ some no_priv
unfolding priv_protocol squeeze keep str_eq switch
no_priv_hyphen = refl

-- With v3 credentials that `Validate` accepts, the messages ask for privacy exactly when the text of the
-- privacy protocol is not empty; so with `-` in it, which reads as no protocol, they ask for privacy by no
-- protocol.
pub private_iff :
    (c : Credentials)
    → snmp_version c.version ≡ some version3
    → validate c ≡ none
    → ((security_level c ≡ auth_priv) ↔ (is_blank c.priv_protocol ≡ false))
      × (c.priv_protocol ≡ lit "-"
          → (security_level c ≡ auth_priv) × (priv_protocol c.priv_protocol ≡ some no_priv))
unfolding validate check_as
private_iff c v h =
    let level =
      private_v3 c (auth_protocol c.auth_protocol) (priv_protocol c.priv_protocol)
        (ground (arith, v, h)) in
    (level, λ e. (level.1 (ap is_blank e), ap priv_protocol e ∙ no_priv_hyphen))

auth_blank : auth_protocol [] ≡ some no_auth
unfolding auth_protocol squeeze keep str_eq switch
auth_blank = refl

priv_blank : priv_protocol [] ≡ some no_priv
unfolding priv_protocol squeeze keep str_eq switch
priv_blank = refl

-- `Validate` accepts every set of v3 credentials with a user and an authentication key but neither
-- an authentication protocol nor privacy; the messages then ask for authentication, by no protocol.
pub key_without_protocol :
    (c : Credentials)
    → snmp_version c.version ≡ some version3
    → is_blank c.user ≡ false
    → is_blank c.auth_key ≡ false
    → c.auth_protocol ≡ []
    → c.priv_protocol ≡ []
    → c.priv_key ≡ []
    → (validate c ≡ none)
      × (security_level c ≡ auth_no_priv)
      × (auth_protocol c.auth_protocol ≡ some no_auth)
unfolding validate check_as check_v3 security_level
key_without_protocol c v user key auth priv priv_key =
    let a : auth_protocol c.auth_protocol ≡ some no_auth = ap auth_protocol auth ∙ auth_blank in
    let p : priv_protocol c.priv_protocol ≡ some no_priv = ap priv_protocol priv ∙ priv_blank in
    let b₁ : is_blank c.auth_protocol ≡ true = ap is_blank auth in
    let b₂ : is_blank c.priv_protocol ≡ true = ap is_blank priv in
    let b₃ : is_blank c.priv_key ≡ true = ap is_blank priv_key in
    (rw v (rw (user, a, p) (ground arith)), ground arith, a)
