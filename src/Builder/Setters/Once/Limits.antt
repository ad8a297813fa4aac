-- ===== src/Builder/Setters/Once/Limits.antt =====
-- The interface, the buffer size and the timeout under the setters of `SenderBuilder`.
use c_questdb_client.Base.{◌≡◌, Bool, true, arith}
use c_questdb_client.Text.{Str}
use c_questdb_client.Error.{ok}
use c_questdb_client.Builder.{is_specified, SenderBuilder, set_specified}
use c_questdb_client.Builder.Setters
use c_questdb_client.Builder.Setters.Valid.{
  Change, apply, bind_interface, username, password, token, token_x, token_y, user_agent, tls_roots,
  auth_timeout, max_buf_size, retry_timeout, request_min_throughput, request_timeout, tls_verify,
  tls_ca,
}

module _ (opens : Str → Bool) where
  pub apply-net_interface :
      (c : Change) (b b' : SenderBuilder)
      → apply opens c b ≡ ok b'
      → is_specified b.net_interface ≡ true
      → b'.net_interface ≡ b.net_interface
  unfolding apply set_specified Setters.bind_interface Setters.username Setters.password
      Setters.token Setters.token_x Setters.token_y Setters.user_agent Setters.tls_roots
      Setters.auth_timeout Setters.max_buf_size Setters.retry_timeout Setters.request_min_throughput
      Setters.request_timeout Setters.tls_verify Setters.tls_ca Setters.set_text Setters.with_http
      Setters.ensure_is_tcpx Setters.ensure_tls_enabled
  apply-net_interface (bind_interface v) b b' h before = ground arith
  apply-net_interface (username v) b b' h before = ground arith
  apply-net_interface (password v) b b' h before = ground arith
  apply-net_interface (token v) b b' h before = ground arith
  apply-net_interface (token_x v) b b' h before = ground arith
  apply-net_interface (token_y v) b b' h before = ground arith
  apply-net_interface (user_agent v) b b' h before = ground arith
  apply-net_interface (tls_roots v) b b' h before = ground arith
  apply-net_interface (auth_timeout v) b b' h before = ground arith
  apply-net_interface (max_buf_size v) b b' h before = ground arith
  apply-net_interface (retry_timeout v) b b' h before = ground arith
  apply-net_interface (request_min_throughput v) b b' h before = ground arith
  apply-net_interface (request_timeout v) b b' h before = ground arith
  apply-net_interface (tls_verify v) b b' h before = ground arith
  apply-net_interface (tls_ca v) b b' h before = ground arith

  pub apply-max_buf_size :
      (c : Change) (b b' : SenderBuilder)
      → apply opens c b ≡ ok b'
      → is_specified b.max_buf_size ≡ true
      → b'.max_buf_size ≡ b.max_buf_size
  unfolding apply set_specified Setters.bind_interface Setters.username Setters.password
      Setters.token Setters.token_x Setters.token_y Setters.user_agent Setters.tls_roots
      Setters.auth_timeout Setters.max_buf_size Setters.retry_timeout Setters.request_min_throughput
      Setters.request_timeout Setters.tls_verify Setters.tls_ca Setters.set_text Setters.with_http
      Setters.ensure_is_tcpx Setters.ensure_tls_enabled
  apply-max_buf_size (bind_interface v) b b' h before = ground arith
  apply-max_buf_size (username v) b b' h before = ground arith
  apply-max_buf_size (password v) b b' h before = ground arith
  apply-max_buf_size (token v) b b' h before = ground arith
  apply-max_buf_size (token_x v) b b' h before = ground arith
  apply-max_buf_size (token_y v) b b' h before = ground arith
  apply-max_buf_size (user_agent v) b b' h before = ground arith
  apply-max_buf_size (tls_roots v) b b' h before = ground arith
  apply-max_buf_size (auth_timeout v) b b' h before = ground arith
  apply-max_buf_size (max_buf_size v) b b' h before = ground arith
  apply-max_buf_size (retry_timeout v) b b' h before = ground arith
  apply-max_buf_size (request_min_throughput v) b b' h before = ground arith
  apply-max_buf_size (request_timeout v) b b' h before = ground arith
  apply-max_buf_size (tls_verify v) b b' h before = ground arith
  apply-max_buf_size (tls_ca v) b b' h before = ground arith

  pub apply-auth_timeout :
      (c : Change) (b b' : SenderBuilder)
      → apply opens c b ≡ ok b'
      → is_specified b.auth_timeout ≡ true
      → b'.auth_timeout ≡ b.auth_timeout
  unfolding apply set_specified Setters.bind_interface Setters.username Setters.password
      Setters.token Setters.token_x Setters.token_y Setters.user_agent Setters.tls_roots
      Setters.auth_timeout Setters.max_buf_size Setters.retry_timeout Setters.request_min_throughput
      Setters.request_timeout Setters.tls_verify Setters.tls_ca Setters.set_text Setters.with_http
      Setters.ensure_is_tcpx Setters.ensure_tls_enabled
  apply-auth_timeout (bind_interface v) b b' h before = ground arith
  apply-auth_timeout (username v) b b' h before = ground arith
  apply-auth_timeout (password v) b b' h before = ground arith
  apply-auth_timeout (token v) b b' h before = ground arith
  apply-auth_timeout (token_x v) b b' h before = ground arith
  apply-auth_timeout (token_y v) b b' h before = ground arith
  apply-auth_timeout (user_agent v) b b' h before = ground arith
  apply-auth_timeout (tls_roots v) b b' h before = ground arith
  apply-auth_timeout (auth_timeout v) b b' h before = ground arith
  apply-auth_timeout (max_buf_size v) b b' h before = ground arith
  apply-auth_timeout (retry_timeout v) b b' h before = ground arith
  apply-auth_timeout (request_min_throughput v) b b' h before = ground arith
  apply-auth_timeout (request_timeout v) b b' h before = ground arith
  apply-auth_timeout (tls_verify v) b b' h before = ground arith
  apply-auth_timeout (tls_ca v) b b' h before = ground arith
