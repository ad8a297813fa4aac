-- ===== src/Builder/Setters.antt =====
-- The setters of `SenderBuilder` in questdb-rs/src/ingress/mod.rs.
pub mod Valid
pub mod Once
use c_questdb_client.Base.{ℕ, Bool, Option, none, some, ltb, ◌==◌, if◌then◌else◌, codes}
use c_questdb_client.Error.{
  Result, ok, err, error, config_error, tcp_only, http_only, tls_unsupported, buf_size_too_small,
  zero_request_timeout, no_root_file, ◌>>=◌, ◌>>◌,
}
use c_questdb_client.Text.{Str}
use c_questdb_client.Builder.{
  SenderBuilder, HttpConfig, ConfigSetting, CertificateAuthority, pem_file, set_specified,
  validate_value, tls_enabled, is_tcpx, same_option, same_bool, same_ca,
}

ensure_is_tcpx : (param_name : Str) → SenderBuilder → Result (Unit {0})
ensure_is_tcpx param_name b =
    if is_tcpx b.protocol then ok tt else err (error config_error (tcp_only param_name))

ensure_tls_enabled : (property : Str) → SenderBuilder → Result (Unit {0})
ensure_tls_enabled property b =
    if tls_enabled b.protocol then ok tt else err (error config_error (tls_unsupported property))

-- A setting of text that may be absent: the value is checked first.
set_text :
    (setting_name : Str) → Str → ConfigSetting (Option Str) → Result (ConfigSetting (Option Str))
set_text setting_name value setting = do
  v ← validate_value value
  set_specified same_option setting_name (some v) setting

-- The setting of an HTTP option: `none` is the builder of a TCP sender.
with_http :
    (setting_name : Str) → (HttpConfig → Result HttpConfig) → SenderBuilder → Result SenderBuilder
with_http setting_name f b = elim b.http_config [
  | some http ↦ f http >>= λ http. ok (record b { http_config = some http })
  | none ↦ err (error config_error (http_only setting_name))
]

unfoldable pub bind_interface : Str → SenderBuilder → Result SenderBuilder
unfolding ensure_is_tcpx set_text
bind_interface addr b = do
  ensure_is_tcpx (codes "bind_interface") b
  s ← set_text (codes "bind_interface") addr b.net_interface
  ok (record b { net_interface = s })

unfoldable pub username : Str → SenderBuilder → Result SenderBuilder
unfolding set_text
username value b = do
  s ← set_text (codes "username") value b.username
  ok (record b { username = s })

unfoldable pub password : Str → SenderBuilder → Result SenderBuilder
unfolding set_text
password value b = do
  s ← set_text (codes "password") value b.password
  ok (record b { password = s })

unfoldable pub token : Str → SenderBuilder → Result SenderBuilder
unfolding set_text
token value b = do s ← set_text (codes "token") value b.token; ok (record b { token = s })

unfoldable pub token_x : Str → SenderBuilder → Result SenderBuilder
unfolding set_text
token_x value b = do s ← set_text (codes "token_x") value b.token_x; ok (record b { token_x = s })

unfoldable pub token_y : Str → SenderBuilder → Result SenderBuilder
unfolding set_text
token_y value b = do s ← set_text (codes "token_y") value b.token_y; ok (record b { token_y = s })

unfoldable pub auth_timeout : ℕ → SenderBuilder → Result SenderBuilder
auth_timeout value b = do
  s ← set_specified ◌==◌ (codes "auth_timeout") value b.auth_timeout
  ok (record b { auth_timeout = s })

unfoldable pub tls_verify : Bool → SenderBuilder → Result SenderBuilder
unfolding ensure_tls_enabled
tls_verify verify b = do
  ensure_tls_enabled (codes "tls_verify") b
  s ← set_specified same_bool (codes "tls_verify") verify b.tls_verify
  ok (record b { tls_verify = s })

unfoldable pub tls_ca : CertificateAuthority → SenderBuilder → Result SenderBuilder
unfolding ensure_tls_enabled
tls_ca ca b = do
  ensure_tls_enabled (codes "tls_ca") b
  s ← set_specified same_ca (codes "tls_ca") ca b.tls_ca
  ok (record b { tls_ca = s })

unfoldable pub tls_roots : (opens : Str → Bool) → Str → SenderBuilder → Result SenderBuilder
unfolding tls_ca
tls_roots opens path b = do
  b ← tls_ca pem_file b
  if opens path then ok tt else err (error config_error no_root_file)
  s ← set_specified same_option (codes "tls_roots") (some path) b.tls_roots
  ok (record b { tls_roots = s })

unfoldable pub max_buf_size : ℕ → SenderBuilder → Result SenderBuilder
max_buf_size value b = do
  if ltb value 1024 then err (error config_error buf_size_too_small) else ok tt
  s ← set_specified ◌==◌ (codes "max_buf_size") value b.max_buf_size
  ok (record b { max_buf_size = s })

unfoldable pub retry_timeout : ℕ → SenderBuilder → Result SenderBuilder
unfolding with_http
retry_timeout value = with_http (codes "retry_timeout") λ http. do
  s ← set_specified ◌==◌ (codes "retry_timeout") value http.retry_timeout
  ok (record http { retry_timeout = s })

unfoldable pub request_min_throughput : ℕ → SenderBuilder → Result SenderBuilder
unfolding with_http
request_min_throughput value = with_http (codes "request_min_throughput") λ http. do
  s ← set_specified ◌==◌ (codes "request_min_throughput") value http.request_min_throughput
  ok (record http { request_min_throughput = s })

unfoldable pub request_timeout : ℕ → SenderBuilder → Result SenderBuilder
unfolding with_http
request_timeout value = with_http (codes "request_timeout") λ http. do
  if value == 0 then err (error config_error zero_request_timeout) else ok tt
  s ← set_specified ◌==◌ (codes "request_timeout") value http.request_timeout
  ok (record http { request_timeout = s })

-- Over TCP the value is checked and has no effect.
unfoldable pub user_agent : Str → SenderBuilder → Result SenderBuilder
user_agent value b = do
  v ← validate_value value
  elim b.http_config [
    | some http ↦ ok (record b { http_config = some (record http { user_agent = v }) })
    | none ↦ ok b
  ]
