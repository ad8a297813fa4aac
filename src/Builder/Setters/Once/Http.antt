-- ===== src/Builder/Setters/Once/Http.antt =====
-- The settings of HTTP under the setters of `SenderBuilder`.
use c_questdb_client.Base.{◌≡◌, Bool, true, arith, Option, some, none, ℕ}
use c_questdb_client.Text.{Str}
use c_questdb_client.Error.{ok}
use c_questdb_client.Builder.{
  is_specified, SenderBuilder, set_specified, ConfigSetting, HttpConfig, validate_value,
}
use c_questdb_client.Builder.Setters
use c_questdb_client.Builder.Setters.Valid.{
  Change, apply, bind_interface, username, password, token, token_x, token_y, user_agent, tls_roots,
  auth_timeout, max_buf_size, retry_timeout, request_min_throughput, request_timeout, tls_verify,
  tls_ca,
}

-- A setting of a builder that has settings of HTTP.
abbrev pub of_http : (HttpConfig → ConfigSetting ℕ) → SenderBuilder → Option (ConfigSetting ℕ)
of_http field b = elim b.http_config [ some http ↦ some (field http) | none ↦ none ]

module _ (opens : Str → Bool) where
  pub apply-retry_timeout :
      (c : Change) (b b' : SenderBuilder)
      → apply opens c b ≡ ok b'
      → (s : ConfigSetting ℕ) → of_http HttpConfig.retry_timeout b ≡ some s
      → is_specified s ≡ true
      → of_http HttpConfig.retry_timeout b' ≡ some s
  unfolding apply set_specified validate_value Setters.bind_interface Setters.username
      Setters.password Setters.token Setters.token_x Setters.token_y Setters.user_agent
      Setters.tls_roots Setters.auth_timeout Setters.max_buf_size Setters.retry_timeout
      Setters.request_min_throughput Setters.request_timeout Setters.tls_verify Setters.tls_ca
      Setters.set_text Setters.with_http Setters.ensure_is_tcpx Setters.ensure_tls_enabled
  apply-retry_timeout (bind_interface v) b b' h s is before = ground arith
  apply-retry_timeout (username v) b b' h s is before = ground arith
  apply-retry_timeout (password v) b b' h s is before = ground arith
  apply-retry_timeout (token v) b b' h s is before = ground arith
  apply-retry_timeout (token_x v) b b' h s is before = ground arith
  apply-retry_timeout (token_y v) b b' h s is before = ground arith
  apply-retry_timeout (user_agent v) b b' h s is before = ground arith
  apply-retry_timeout (tls_roots v) b b' h s is before = ground arith
  apply-retry_timeout (auth_timeout v) b b' h s is before = ground arith
  apply-retry_timeout (max_buf_size v) b b' h s is before = ground arith
  apply-retry_timeout (retry_timeout v) b b' h s is before = ground arith
  apply-retry_timeout (request_min_throughput v) b b' h s is before = ground arith
  apply-retry_timeout (request_timeout v) b b' h s is before = ground arith
  apply-retry_timeout (tls_verify v) b b' h s is before = ground arith
  apply-retry_timeout (tls_ca v) b b' h s is before = ground arith

  pub apply-request_timeout :
      (c : Change) (b b' : SenderBuilder)
      → apply opens c b ≡ ok b'
      → (s : ConfigSetting ℕ) → of_http HttpConfig.request_timeout b ≡ some s
      → is_specified s ≡ true
      → of_http HttpConfig.request_timeout b' ≡ some s
  unfolding apply set_specified validate_value Setters.bind_interface Setters.username
      Setters.password Setters.token Setters.token_x Setters.token_y Setters.user_agent
      Setters.tls_roots Setters.auth_timeout Setters.max_buf_size Setters.retry_timeout
      Setters.request_min_throughput Setters.request_timeout Setters.tls_verify Setters.tls_ca
      Setters.set_text Setters.with_http Setters.ensure_is_tcpx Setters.ensure_tls_enabled
  apply-request_timeout (bind_interface v) b b' h s is before = ground arith
  apply-request_timeout (username v) b b' h s is before = ground arith
  apply-request_timeout (password v) b b' h s is before = ground arith
  apply-request_timeout (token v) b b' h s is before = ground arith
  apply-request_timeout (token_x v) b b' h s is before = ground arith
  apply-request_timeout (token_y v) b b' h s is before = ground arith
  apply-request_timeout (user_agent v) b b' h s is before = ground arith
  apply-request_timeout (tls_roots v) b b' h s is before = ground arith
  apply-request_timeout (auth_timeout v) b b' h s is before = ground arith
  apply-request_timeout (max_buf_size v) b b' h s is before = ground arith
  apply-request_timeout (retry_timeout v) b b' h s is before = ground arith
  apply-request_timeout (request_min_throughput v) b b' h s is before = ground arith
  apply-request_timeout (request_timeout v) b b' h s is before = ground arith
  apply-request_timeout (tls_verify v) b b' h s is before = ground arith
  apply-request_timeout (tls_ca v) b b' h s is before = ground arith

  pub apply-request_min_throughput :
      (c : Change) (b b' : SenderBuilder)
      → apply opens c b ≡ ok b'
      → (s : ConfigSetting ℕ) → of_http HttpConfig.request_min_throughput b ≡ some s
      → is_specified s ≡ true
      → of_http HttpConfig.request_min_throughput b' ≡ some s
  unfolding apply set_specified validate_value Setters.bind_interface Setters.username
      Setters.password Setters.token Setters.token_x Setters.token_y Setters.user_agent
      Setters.tls_roots Setters.auth_timeout Setters.max_buf_size Setters.retry_timeout
      Setters.request_min_throughput Setters.request_timeout Setters.tls_verify Setters.tls_ca
      Setters.set_text Setters.with_http Setters.ensure_is_tcpx Setters.ensure_tls_enabled
  apply-request_min_throughput (bind_interface v) b b' h s is before = ground arith
  apply-request_min_throughput (username v) b b' h s is before = ground arith
  apply-request_min_throughput (password v) b b' h s is before = ground arith
  apply-request_min_throughput (token v) b b' h s is before = ground arith
  apply-request_min_throughput (token_x v) b b' h s is before = ground arith
  apply-request_min_throughput (token_y v) b b' h s is before = ground arith
  apply-request_min_throughput (user_agent v) b b' h s is before = ground arith
  apply-request_min_throughput (tls_roots v) b b' h s is before = ground arith
  apply-request_min_throughput (auth_timeout v) b b' h s is before = ground arith
  apply-request_min_throughput (max_buf_size v) b b' h s is before = ground arith
  apply-request_min_throughput (retry_timeout v) b b' h s is before = ground arith
  apply-request_min_throughput (request_min_throughput v) b b' h s is before = ground arith
  apply-request_min_throughput (request_timeout v) b b' h s is before = ground arith
  apply-request_min_throughput (tls_verify v) b b' h s is before = ground arith
  apply-request_min_throughput (tls_ca v) b b' h s is before = ground arith
