-- ===== src/Builder/Conf.antt =====
-- `SenderBuilder::from_conf` and `from_env` of questdb-rs/src/ingress/mod.rs, with
-- `parse_conf_value`, `validate_auto_flush_params` and `Protocol::from_schema`.
pub mod Valid
pub mod Asks
use c_questdb_client.Base.{
  ℕ, ◌+◌, ◌-◌, ◌*◌, ◌^◌, Bool, true, false, ◌&&◌, Option, none, some, List, [], ◌∷◌, leb, ltb, ◌==◌,
  if◌then◌else◌, same_text, codes,
}
use c_questdb_client.Error.{
  Result, ok, err, error, config_error, unsupported_protocol, unsupported_param, bad_number,
  bad_tls_ca, bad_auto_flush, no_conf_variable, no_addr, bad_conf_string, bad_tls_verify, ◌>>=◌,
  ◌>>◌,
}
use c_questdb_client.Text.{Str}
use c_questdb_client.Builder
use c_questdb_client.Builder.{
  SenderBuilder, Protocol, tcp, tcps, http, https, CertificateAuthority, webpki_roots, os_roots,
  webpki_and_os_roots,
}
use c_questdb_client.Builder.Setters
use c_questdb_client.Builder.Build.{Environment, Conf}

-- `params.get(key)`
unfoldable pub get : List (Str × Str) → Str → Option Str
get [] key = none
get ((k, v) ∷ params) key = if same_text k key then some v else get params key

abbrev pub default_port : Protocol → Str
default_port tcp = codes "9009"
default_port tcps = codes "9009"
default_port http = codes "9000"
default_port https = codes "9000"

unfoldable pub from_schema : Str → Result Protocol
from_schema schema =
    if same_text schema (codes "tcp")
    then ok tcp
    else if same_text schema (codes "tcps")
    then ok tcps
    else if same_text schema (codes "http")
    then ok http
    else if same_text schema (codes "https")
    then ok https
    else err (error config_error (unsupported_protocol schema))

-- `addr.split_once(':')`
unfoldable pub split_once : Str → Option (Str × Str)
split_once [] = none
split_once (c ∷ cs) =
    let rest = split_once cs in
    if c == b':' then some ([], cs) else elim rest [ some (h, p) ↦ some (c ∷ h, p) | none ↦ none ]

-- `str::parse` for a `u64` or a `usize`: digits, behind an optional plus sign, without overflow.
parse_digits : (acc : ℕ) → Str → Option ℕ
parse_digits acc [] = some acc
parse_digits acc (c ∷ cs) =
    let next = acc * 10 + (c - b'0') in
    let rest = parse_digits next cs in
    if leb b'0' c && leb c b'9' && ltb next (2 ^ 64) then rest else none

unsigned : Str → Option ℕ
unsigned [] = none
unsigned (c ∷ cs) = parse_digits 0 (c ∷ cs)

unfoldable pub parse_u64 : Str → Option ℕ
unfolding parse_digits unsigned
parse_u64 [] = none
parse_u64 (c ∷ cs) = if c == b'+' then unsigned cs else unsigned (c ∷ cs)

unfoldable pub parse_conf_value : (param_name : Str) → Str → Result ℕ
parse_conf_value param_name val = elim (parse_u64 val) [
  | some n ↦ ok n
  | none ↦ err (error config_error (bad_number param_name))
]

refuse_key : List (Str × Str) → Str → Result (Unit {0})
refuse_key params key = elim (get params key) [
  | some v ↦ err (error config_error (unsupported_param key))
  | none ↦ ok tt
]

refuse_auto_flush : Option Str → Result (Unit {0})
refuse_auto_flush none = ok tt
refuse_auto_flush (some v) =
    if same_text v (codes "off") then ok tt else err (error config_error (bad_auto_flush v))

unfoldable pub validate_auto_flush_params : List (Str × Str) → Result (Unit {0})
unfolding refuse_key refuse_auto_flush
validate_auto_flush_params params = do
  refuse_auto_flush (get params (codes "auto_flush"))
  refuse_key params (codes "auto_flush_rows")
  refuse_key params (codes "auto_flush_bytes")

tls_verify_of : Str → Result Bool
tls_verify_of val =
    if same_text val (codes "on")
    then ok true
    else if same_text val (codes "unsafe_off")
    then ok false
    else err (error config_error bad_tls_verify)

tls_ca_of : Str → Result CertificateAuthority
tls_ca_of val =
    if same_text val (codes "webpki_roots")
    then ok webpki_roots
    else if same_text val (codes "os_roots")
    then ok os_roots
    else if same_text val (codes "webpki_and_os_roots")
    then ok webpki_and_os_roots
    else err (error config_error (bad_tls_ca val))

module _ (env : Environment) where
  -- One round of the loop over the parameters, in the order of the arms. `tls_verify` is that of a
  -- build with the feature `insecure-skip-verify`, which the C library enables.
  unfoldable pub set_param : (key val : Str) → SenderBuilder → Result SenderBuilder
  unfolding tls_verify_of tls_ca_of
  set_param key val b =
      if same_text key (codes "username")
      then Setters.username val b
      else if same_text key (codes "password")
      then Setters.password val b
      else if same_text key (codes "token")
      then Setters.token val b
      else if same_text key (codes "token_x")
      then Setters.token_x val b
      else if same_text key (codes "token_y")
      then Setters.token_y val b
      else if same_text key (codes "bind_interface")
      then Setters.bind_interface val b
      else if same_text key (codes "init_buf_size")
      then err (error config_error (unsupported_param key))
      else if same_text key (codes "max_buf_size")
      then (parse_conf_value key val >>= λ n. Setters.max_buf_size n b)
      else if same_text key (codes "auth_timeout")
      then (parse_conf_value key val >>= λ n. Setters.auth_timeout n b)
      else if same_text key (codes "tls_verify")
      then (tls_verify_of val >>= λ v. Setters.tls_verify v b)
      else if same_text key (codes "tls_ca")
      then (tls_ca_of val >>= λ ca. Setters.tls_ca ca b)
      else if same_text key (codes "tls_roots")
      then Setters.tls_roots env.opens val b
      else if same_text key (codes "tls_roots_password")
      then err (error config_error (unsupported_param key))
      else if same_text key (codes "request_min_throughput")
      then (parse_conf_value key val >>= λ n. Setters.request_min_throughput n b)
      else if same_text key (codes "request_timeout")
      then (parse_conf_value key val >>= λ n. Setters.request_timeout n b)
      else if same_text key (codes "retry_timeout")
      then (parse_conf_value key val >>= λ n. Setters.retry_timeout n b)
      else ok b

  unfoldable pub set_params : List (Str × Str) → SenderBuilder → Result SenderBuilder
  unfolding set_param
  set_params [] b = ok b
  set_params ((key, val) ∷ params) b = set_param key val b >>= set_params params

  address : Protocol → Option Str → Result (Str × Str)
  address protocol none = err (error config_error no_addr)
  address protocol (some addr) = elim (split_once addr) [
    | some hp ↦ ok hp
    | none ↦ ok (addr, default_port protocol)
  ]

  unfoldable pub from_parsed : Conf → Result SenderBuilder
  unfolding set_params address
  from_parsed conf = do
    protocol ← from_schema conf.service
    host_port ← address protocol (get conf.params (codes "addr"))
    validate_auto_flush_params conf.params
    set_params conf.params (Builder.new Builder.rust_agent protocol host_port.0 host_port.1)

  from_parse : Option Conf → Result SenderBuilder
  from_parse (some conf) = from_parsed conf
  from_parse none = err (error config_error bad_conf_string)

  unfoldable pub from_conf : Str → Result SenderBuilder
  unfolding from_parse
  from_conf conf = from_parse (env.parse_conf_str conf)

  unfoldable pub from_env : Result SenderBuilder
  unfolding from_conf
  from_env = elim env.client_conf [
    | some conf ↦ from_conf conf
    | none ↦ err (error config_error no_conf_variable)
  ]
