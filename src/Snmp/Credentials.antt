-- ===== src/Snmp/Credentials.antt =====
-- internal/snmp/session.go: the credentials, their validation, and the client that `NewSession`
-- configures. `strings.ToUpper` and `strings.ToLower` are modelled on ASCII. The connection itself
-- is gosnmp's.
pub mod Coherent
use networkdevicereceiver.Base.{
  ℕ, ◌+◌, ◌-◌, Bool, true, false, not, ◌&&◌, ◌||◌, ◌==◌, Option, none, some, List, [], ◌∷◌, map,
  leb, ltb, if◌then◌else◌, keep, Str, lit, str_eq, is_blank, trim_prefix, ℤ, pos, negsuc,
}

pub record Credentials : Type 0 where
  pub version : Str
  pub community : Str
  pub user : Str
  pub auth_protocol : Str
  pub auth_key : Str
  pub priv_protocol : Str
  pub priv_key : Str
  pub context_name : Str

pub record ConnectionConfig : Type 0 where
  pub host : Str
  pub port : ℕ
  pub credentials : Credentials
  -- in nanoseconds
  pub timeout : ℤ
  pub retries : ℤ

-- gosnmp's constants
pub data SnmpVersion : Type 0 where
  version1 version2c version3 : SnmpVersion

pub data MsgFlags : Type 0 where
  no_auth_no_priv auth_no_priv auth_priv : MsgFlags

pub data Auth : Type 0 where
  no_auth md5 sha sha224 sha256 sha384 sha512 : Auth

pub data Priv : Type 0 where
  no_priv des aes aes192 aes256 aes192c aes256c : Priv

pub data CredentialError : Type 0 where
  unsupported_version unsupported_auth unsupported_priv : CredentialError
  requires_user requires_community requires_auth_key : CredentialError
  priv_without_key key_without_priv auth_without_key : CredentialError

abbrev upper : ℕ → ℕ
upper c = if leb 97 c && leb c 122 then c - 32 else c

abbrev lower : ℕ → ℕ
lower c = if leb 65 c && leb c 90 then c + 32 else c

-- strings.ToUpper(strings.ReplaceAll(name, "-", ""))
unfoldable pub squeeze : Str → Str
squeeze name = map upper (keep (λ c. not (c == b'-')) name)

-- The cases of a switch, the first that matches deciding.
unfoldable pub switch {ℓ} : {A : Type ℓ} → List (Str × A) → Str → Option A
switch [] s = none
switch ((key, a) ∷ cases) s = if str_eq key s then some a else switch cases s

unfoldable pub snmp_version : Str → Option SnmpVersion
unfolding switch
snmp_version version =
    switch
      ((lit "1", version1)
        ∷ (lit "2c", version2c)
        ∷ (lit "2", version2c)
        ∷ (lit "3", version3)
        ∷ ([], version2c)
        ∷ [])
      (map lower (trim_prefix version (lit "v")))

unfoldable pub security_level : Credentials → MsgFlags
security_level c =
    if not (is_blank c.auth_key) && not (is_blank c.priv_key)
    then auth_priv
    else if not (is_blank c.auth_key)
    then auth_no_priv
    else no_auth_no_priv

unfoldable pub auth_protocol : Str → Option Auth
unfolding switch
auth_protocol name =
    switch
      (([], no_auth)
        ∷ (lit "MD5", md5)
        ∷ (lit "SHA", sha)
        ∷ (lit "SHA1", sha)
        ∷ (lit "SHA224", sha224)
        ∷ (lit "SHA256", sha256)
        ∷ (lit "SHA384", sha384)
        ∷ (lit "SHA512", sha512)
        ∷ [])
      (squeeze name)

unfoldable pub priv_protocol : Str → Option Priv
unfolding switch
priv_protocol name =
    switch
      (([], no_priv)
        ∷ (lit "DES", des)
        ∷ (lit "AES", aes)
        ∷ (lit "AES128", aes)
        ∷ (lit "AES192", aes192)
        ∷ (lit "AES256", aes256)
        ∷ (lit "AES192C", aes192c)
        ∷ (lit "AES256C", aes256c)
        ∷ [])
      (squeeze name)

-- The checks of v3, from the looked-up protocols on.
unfoldable pub check_v3 : Option Auth → Option Priv → Credentials → Option CredentialError
check_v3 none priv c = some unsupported_auth
check_v3 (some auth) none c = some unsupported_priv
check_v3 (some auth) (some priv) c =
    if not (is_blank c.priv_key) && is_blank c.auth_key
    then some requires_auth_key
    else if not (is_blank c.priv_protocol) && is_blank c.priv_key
    then some priv_without_key
    else if not (is_blank c.priv_key) && is_blank c.priv_protocol
    then some key_without_priv
    else if not (is_blank c.auth_protocol) && is_blank c.auth_key
    then some auth_without_key
    else none

abbrev pub check_community : Credentials → Option CredentialError
check_community c = if is_blank c.community then some requires_community else none

unfoldable pub check_as : Option SnmpVersion → Credentials → Option CredentialError
unfolding check_v3
check_as none c = some unsupported_version
check_as (some version1) c = check_community c
check_as (some version2c) c = check_community c
check_as (some version3) c =
    if is_blank c.user
    then some requires_user
    else check_v3 (auth_protocol c.auth_protocol) (priv_protocol c.priv_protocol) c

-- Validate: `none` is Go's nil error.
unfoldable pub validate : Credentials → Option CredentialError
unfolding check_as
validate c = check_as (snmp_version c.version) c

pub data Security : Type 0 where
  community : Str → Security
  -- message flags, context, user, authentication and privacy, each with its passphrase
  usm : MsgFlags → Str → Str → Auth → Str → Priv → Str → Security

pub record Client : Type 0 where
  pub target : Str
  pub port : ℕ
  pub version : SnmpVersion
  pub timeout : ℤ
  pub retries : ℤ
  pub security : Security

pub data Opened : Type 0 where
  opened : Client → Opened
  refused : CredentialError → Opened

abbrev port_or_default : ℕ → ℕ
port_or_default n = if n == 0 then 161 else n

abbrev timeout_or_default : ℤ → ℤ
timeout_or_default (pos n) = if n == 0 then pos 5000000000 else pos n
timeout_or_default (negsuc n) = pos 5000000000

abbrev pub client_of : ConnectionConfig → SnmpVersion → Security → Client
client_of cfg v security = record {
  target = cfg.host;
  port = port_or_default cfg.port;
  version = v;
  timeout = timeout_or_default cfg.timeout;
  retries = cfg.retries;
  security = security;
}

unfoldable pub usm_of : ConnectionConfig → Option Auth → Option Priv → Opened
usm_of cfg none priv = refused unsupported_auth
usm_of cfg (some auth) none = refused unsupported_priv
usm_of cfg (some auth) (some priv) =
    let c = cfg.credentials in
    opened (
      client_of cfg version3
        (usm (security_level c) c.context_name c.user auth c.auth_key priv c.priv_key))

unfoldable pub open_as : ConnectionConfig → SnmpVersion → Opened
unfolding usm_of
open_as cfg version1 = opened (client_of cfg version1 (community cfg.credentials.community))
open_as cfg version2c = opened (client_of cfg version2c (community cfg.credentials.community))
open_as cfg version3 =
    usm_of cfg (auth_protocol cfg.credentials.auth_protocol)
      (priv_protocol cfg.credentials.priv_protocol)

unfoldable pub open_valid : ConnectionConfig → SnmpVersion → Option CredentialError → Opened
unfolding open_as
open_valid cfg v none = open_as cfg v
open_valid cfg v (some e) = refused e

unfoldable pub open_version : ConnectionConfig → Option SnmpVersion → Opened
unfolding open_valid
open_version cfg none = refused unsupported_version
open_version cfg (some v) = open_valid cfg v (validate cfg.credentials)

-- NewSession
unfoldable pub new_session : ConnectionConfig → Opened
unfolding open_version
new_session cfg = open_version cfg (snmp_version cfg.credentials.version)
