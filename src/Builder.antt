-- ===== src/Builder.antt =====
-- `ConfigSetting` of questdb-rs/src/ingress/conf.rs, and `SenderBuilder` of
-- questdb-rs/src/ingress/mod.rs up to the building: a setter consumes the builder and returns it
-- changed, or an error. Whether a file can be opened is a parameter; a `Duration` is in milliseconds.
pub mod Auth
pub mod Setters
pub mod Build
pub mod Conf
use c_questdb_client.Base.{
  ℕ, ◌+◌, ◌*◌, Bool, true, false, not, ◌||◌, ◌&&◌, Option, none, some, List, [], ◌∷◌, ltb, leb,
  ◌==◌, if◌then◌else◌, same_text, codes,
}
use c_questdb_client.Error.{
  Result, ok, err, error, config_error, already_specified, tcp_only, http_only, tls_unsupported,
  bad_conf_char, buf_size_too_small, zero_request_timeout, no_root_file, ◌>>=◌, ◌>>◌,
}
use c_questdb_client.Text.{Str}

pub data ConfigSetting (A : Type 0) : Type 0 where
  defaulted : A → ConfigSetting A
  specified : A → ConfigSetting A

-- `Deref`
abbrev pub deref : {A : Type 0} → ConfigSetting A → A
deref (defaulted v) = v
deref (specified v) = v

-- `PartialEq` of the types of settings
abbrev same_option : Option Str → Option Str → Bool
same_option (some s) (some t) = same_text s t
same_option none none = true
same_option _ _ = false

abbrev same_bool : Bool → Bool → Bool
same_bool true b = b
same_bool false b = not b

unfoldable pub set_specified :
    {A : Type 0}
    → (A → A → Bool)
    → (setting_name : Str) → A
    → ConfigSetting A
    → Result (ConfigSetting A)
set_specified same setting_name value (defaulted v) = ok (specified value)
set_specified same setting_name value (specified curr_value) =
    if same curr_value value
    then ok (specified curr_value)
    else err (error config_error (already_specified setting_name))

pub data Protocol : Type 0 where
  tcp tcps http https : Protocol

abbrev pub tls_enabled : Protocol → Bool
tls_enabled tcp = false
tls_enabled tcps = true
tls_enabled http = false
tls_enabled https = true

abbrev pub is_tcpx : Protocol → Bool
is_tcpx tcp = true
is_tcpx tcps = true
is_tcpx http = false
is_tcpx https = false

abbrev pub is_httpx : Protocol → Bool
is_httpx tcp = false
is_httpx tcps = false
is_httpx http = true
is_httpx https = true

pub data CertificateAuthority : Type 0 where
  webpki_roots os_roots webpki_and_os_roots pem_file : CertificateAuthority

abbrev ca_number : CertificateAuthority → ℕ
ca_number webpki_roots = 0
ca_number os_roots = 1
ca_number webpki_and_os_roots = 2
ca_number pem_file = 3

abbrev same_ca : CertificateAuthority → CertificateAuthority → Bool
same_ca a b = ca_number a == ca_number b

pub record HttpConfig : Type 0 where
  pub request_min_throughput : ConfigSetting ℕ
  pub user_agent : Str
  pub retry_timeout : ConfigSetting ℕ
  pub request_timeout : ConfigSetting ℕ

pub record SenderBuilder : Type 0 where
  pub protocol : Protocol
  pub host : ConfigSetting Str
  pub port : ConfigSetting Str
  pub net_interface : ConfigSetting (Option Str)
  pub max_buf_size : ConfigSetting ℕ
  pub auth_timeout : ConfigSetting ℕ
  pub username : ConfigSetting (Option Str)
  pub password : ConfigSetting (Option Str)
  pub token : ConfigSetting (Option Str)
  pub token_x : ConfigSetting (Option Str)
  pub token_y : ConfigSetting (Option Str)
  pub tls_verify : ConfigSetting Bool
  pub tls_ca : ConfigSetting CertificateAuthority
  pub tls_roots : ConfigSetting (Option Str)
  pub http_config : Option HttpConfig

-- `HttpConfig::default`; the user agent ends in the version of the package, which is an argument.
abbrev pub default_http : (version : Str) → HttpConfig
default_http version = record {
  request_min_throughput = defaulted 102400;
  user_agent = version;
  retry_timeout = defaulted 10000;
  request_timeout = defaulted 10000;
}

unfoldable pub new : (version : Str) → Protocol → (host port : Str) → SenderBuilder
new version protocol host port = record {
  protocol = protocol;
  host = specified host;
  port = specified port;
  net_interface = defaulted none;
  max_buf_size = defaulted (100 * 1024 * 1024);
  auth_timeout = defaulted 15000;
  username = defaulted none;
  password = defaulted none;
  token = defaulted none;
  token_x = defaulted none;
  token_y = defaulted none;
  tls_verify = defaulted true;
  tls_ca = defaulted webpki_roots;
  tls_roots = defaulted none;
  http_config = if is_httpx protocol then some (default_http version) else none;
}

-- The default user agent, `concat!("questdb/rust/", env!("CARGO_PKG_VERSION"))`
abbrev pub rust_agent : Str
rust_agent = codes "questdb/rust/4.0.3"

-- The control characters that `validate_value` refuses.
abbrev pub is_control : ℕ → Bool
is_control c = leb c 0x1f || (leb 0x7f c && leb c 0x9f)

validate_from : (position : ℕ) → Str → Result (Unit {0})
validate_from p [] = ok tt
validate_from p (c ∷ cs) =
    let rest = validate_from (p + 1) cs in
    if is_control c then err (error config_error (bad_conf_char c p)) else rest

unfoldable pub validate_value : Str → Result Str
unfolding validate_from
validate_value s = validate_from 0 s >> ok s

abbrev pub is_specified : {A : Type 0} → ConfigSetting A → Bool
is_specified (specified v) = true
is_specified (defaulted v) = false
