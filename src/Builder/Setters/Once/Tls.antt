-- ===== src/Builder/Setters/Once/Tls.antt =====
-- The settings of TLS under the setters of `SenderBuilder`.
use c_questdb_client.Base.{◌≡◌, Bool, true, arith}
use c_questdb_client.Text.{Str}
use c_questdb_client.Error.{ok}
use c_questdb_client.Builder.{is_specified, SenderBuilder, set_specified}
use c_questdb_client.Builder.Setters
use c_questdb_client.Builder.Setters.Valid.{
  Change, apply, bind_interface, username, password, token, token_x, token_y, user_agent, tls_roots,
  auth_timeout, max_buf_size, retry_timeout, request_min_throughput, request_timeout, tls_verify,
  tls_ca,
}

module _ (opens : Str → Bool) where
  pub apply-tls_verify :
      (c : Change) (b b' : SenderBuilder)
      → apply opens c b ≡ ok b'
      → is_specified b.tls_verify ≡ true
      → b'.tls_verify ≡ b.tls_verify
  unfolding apply set_specified Setters.bind_interface Setters.username Setters.password
      Setters.token Setters.token_x Setters.token_y Setters.user_agent Setters.tls_roots
      Setters.auth_timeout Setters.max_buf_size Setters.retry_timeout Setters.request_min_throughput
      Setters.request_timeout Setters.tls_verify Setters.tls_ca Setters.set_text Setters.with_http
      Setters.ensure_is_tcpx Setters.ensure_tls_enabled
  apply-tls_verify (bind_interface v) b b' h before = ground arith
  apply-tls_verify (username v) b b' h before = ground arith
  apply-tls_verify (password v) b b' h before = ground arith
  apply-tls_verify (token v) b b' h before = ground arith
  apply-tls_verify (token_x v) b b' h before = ground arith
  apply-tls_verify (token_y v) b b' h before = ground arith
  apply-tls_verify (user_agent v) b b' h before = ground arith
  apply-tls_verify (tls_roots v) b b' h before = ground arith
  apply-tls_verify (auth_timeout v) b b' h before = ground arith
  apply-tls_verify (max_buf_size v) b b' h before = ground arith
  apply-tls_verify (retry_timeout v) b b' h before = ground arith
  apply-tls_verify (request_min_throughput v) b b' h before = ground arith
  apply-tls_verify (request_timeout v) b b' h before = ground arith
  apply-tls_verify (tls_verify v) b b' h before = ground arith
  apply-tls_verify (tls_ca v) b b' h before = ground arith

  pub apply-tls_ca :
      (c : Change) (b b' : SenderBuilder)
      → apply opens c b ≡ ok b'
      → is_specified b.tls_ca ≡ true
      → b'.tls_ca ≡ b.tls_ca
  unfolding apply set_specified Setters.bind_interface Setters.username Setters.password
      Setters.token Setters.token_x Setters.token_y Setters.user_agent Setters.tls_roots
      Setters.auth_timeout Setters.max_buf_size Setters.retry_timeout Setters.request_min_throughput
      Setters.request_timeout Setters.tls_verify Setters.tls_ca Setters.set_text Setters.with_http
      Setters.ensure_is_tcpx Setters.ensure_tls_enabled
  apply-tls_ca (bind_interface v) b b' h before = ground arith
  apply-tls_ca (username v) b b' h before = ground arith
  apply-tls_ca (password v) b b' h before = ground arith
  apply-tls_ca (token v) b b' h before = ground arith
  apply-tls_ca (token_x v) b b' h before = ground arith
  apply-tls_ca (token_y v) b b' h before = ground arith
  apply-tls_ca (user_agent v) b b' h before = ground arith
  apply-tls_ca (tls_roots v) b b' h before = ground arith
  apply-tls_ca (auth_timeout v) b b' h before = ground arith
  apply-tls_ca (max_buf_size v) b b' h before = ground arith
  apply-tls_ca (retry_timeout v) b b' h before = ground arith
  apply-tls_ca (request_min_throughput v) b b' h before = ground arith
  apply-tls_ca (request_timeout v) b b' h before = ground arith
  apply-tls_ca (tls_verify v) b b' h before = ground arith
  apply-tls_ca (tls_ca v) b b' h before = ground arith

  pub apply-tls_roots :
      (c : Change) (b b' : SenderBuilder)
      → apply opens c b ≡ ok b'
      → is_specified b.tls_roots ≡ true
      → b'.tls_roots ≡ b.tls_roots
  unfolding apply set_specified Setters.bind_interface Setters.username Setters.password
      Setters.token Setters.token_x Setters.token_y Setters.user_agent Setters.tls_roots
      Setters.auth_timeout Setters.max_buf_size Setters.retry_timeout Setters.request_min_throughput
      Setters.request_timeout Setters.tls_verify Setters.tls_ca Setters.set_text Setters.with_http
      Setters.ensure_is_tcpx Setters.ensure_tls_enabled
  apply-tls_roots (bind_interface v) b b' h before = ground arith
  apply-tls_roots (username v) b b' h before = ground arith
  apply-tls_roots (password v) b b' h before = ground arith
  apply-tls_roots (token v) b b' h before = ground arith
  apply-tls_roots (token_x v) b b' h before = ground arith
  apply-tls_roots (token_y v) b b' h before = ground arith
  apply-tls_roots (user_agent v) b b' h before = ground arith
  apply-tls_roots (tls_roots v) b b' h before = ground arith
  apply-tls_roots (auth_timeout v) b b' h before = ground arith
  apply-tls_roots (max_buf_size v) b b' h before = ground arith
  apply-tls_roots (retry_timeout v) b b' h before = ground arith
  apply-tls_roots (request_min_throughput v) b b' h before = ground arith
  apply-tls_roots (request_timeout v) b b' h before = ground arith
  apply-tls_roots (tls_verify v) b b' h before = ground arith
  apply-tls_roots (tls_ca v) b b' h before = ground arith
