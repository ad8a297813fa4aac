-- ===== src/Builder/Setters/Once/Auth.antt =====
-- The settings of authentication under the setters of `SenderBuilder`.
use c_questdb_client.Base.{◌≡◌, Bool, true, arith}
use c_questdb_client.Text.{Str}
use c_questdb_client.Error.{ok}
use c_questdb_client.Builder.{is_specified, SenderBuilder, set_specified}
use c_questdb_client.Builder.Setters
use c_questdb_client.Builder.Setters.Valid.{
  Change, apply, bind_interface, username, password, token, token_x, token_y, user_agent, tls_roots,
  auth_timeout, max_buf_size, retry_timeout, request_min_throughput, request_timeout, tls_verify,
  tls_ca,
}

module _ (opens : Str → Bool) where
  pub apply-username :
      (c : Change) (b b' : SenderBuilder)
      → apply opens c b ≡ ok b'
      → is_specified b.username ≡ true
      → b'.username ≡ b.username
  unfolding apply set_specified Setters.bind_interface Setters.username Setters.password
      Setters.token Setters.token_x Setters.token_y Setters.user_agent Setters.tls_roots
      Setters.auth_timeout Setters.max_buf_size Setters.retry_timeout Setters.request_min_throughput
      Setters.request_timeout Setters.tls_verify Setters.tls_ca Setters.set_text Setters.with_http
      Setters.ensure_is_tcpx Setters.ensure_tls_enabled
  apply-username (bind_interface v) b b' h before = ground arith
  apply-username (username v) b b' h before = ground arith
  apply-username (password v) b b' h before = ground arith
  apply-username (token v) b b' h before = ground arith
  apply-username (token_x v) b b' h before = ground arith
  apply-username (token_y v) b b' h before = ground arith
  apply-username (user_agent v) b b' h before = ground arith
  apply-username (tls_roots v) b b' h before = ground arith
  apply-username (auth_timeout v) b b' h before = ground arith
  apply-username (max_buf_size v) b b' h before = ground arith
  apply-username (retry_timeout v) b b' h before = ground arith
  apply-username (request_min_throughput v) b b' h before = ground arith
  apply-username (request_timeout v) b b' h before = ground arith
  apply-username (tls_verify v) b b' h before = ground arith
  apply-username (tls_ca v) b b' h before = ground arith

  pub apply-password :
      (c : Change) (b b' : SenderBuilder)
      → apply opens c b ≡ ok b'
      → is_specified b.password ≡ true
      → b'.password ≡ b.password
  unfolding apply set_specified Setters.bind_interface Setters.username Setters.password
      Setters.token Setters.token_x Setters.token_y Setters.user_agent Setters.tls_roots
      Setters.auth_timeout Setters.max_buf_size Setters.retry_timeout Setters.request_min_throughput
      Setters.request_timeout Setters.tls_verify Setters.tls_ca Setters.set_text Setters.with_http
      Setters.ensure_is_tcpx Setters.ensure_tls_enabled
  apply-password (bind_interface v) b b' h before = ground arith
  apply-password (username v) b b' h before = ground arith
  apply-password (password v) b b' h before = ground arith
  apply-password (token v) b b' h before = ground arith
  apply-password (token_x v) b b' h before = ground arith
  apply-password (token_y v) b b' h before = ground arith
  apply-password (user_agent v) b b' h before = ground arith
  apply-password (tls_roots v) b b' h before = ground arith
  apply-password (auth_timeout v) b b' h before = ground arith
  apply-password (max_buf_size v) b b' h before = ground arith
  apply-password (retry_timeout v) b b' h before = ground arith
  apply-password (request_min_throughput v) b b' h before = ground arith
  apply-password (request_timeout v) b b' h before = ground arith
  apply-password (tls_verify v) b b' h before = ground arith
  apply-password (tls_ca v) b b' h before = ground arith

  pub apply-token :
      (c : Change) (b b' : SenderBuilder)
      → apply opens c b ≡ ok b'
      → is_specified b.token ≡ true
      → b'.token ≡ b.token
  unfolding apply set_specified Setters.bind_interface Setters.username Setters.password
      Setters.token Setters.token_x Setters.token_y Setters.user_agent Setters.tls_roots
      Setters.auth_timeout Setters.max_buf_size Setters.retry_timeout Setters.request_min_throughput
      Setters.request_timeout Setters.tls_verify Setters.tls_ca Setters.set_text Setters.with_http
      Setters.ensure_is_tcpx Setters.ensure_tls_enabled
  apply-token (bind_interface v) b b' h before = ground arith
  apply-token (username v) b b' h before = ground arith
  apply-token (password v) b b' h before = ground arith
  apply-token (token v) b b' h before = ground arith
  apply-token (token_x v) b b' h before = ground arith
  apply-token (token_y v) b b' h before = ground arith
  apply-token (user_agent v) b b' h before = ground arith
  apply-token (tls_roots v) b b' h before = ground arith
  apply-token (auth_timeout v) b b' h before = ground arith
  apply-token (max_buf_size v) b b' h before = ground arith
  apply-token (retry_timeout v) b b' h before = ground arith
  apply-token (request_min_throughput v) b b' h before = ground arith
  apply-token (request_timeout v) b b' h before = ground arith
  apply-token (tls_verify v) b b' h before = ground arith
  apply-token (tls_ca v) b b' h before = ground arith

  pub apply-token_x :
      (c : Change) (b b' : SenderBuilder)
      → apply opens c b ≡ ok b'
      → is_specified b.token_x ≡ true
      → b'.token_x ≡ b.token_x
  unfolding apply set_specified Setters.bind_interface Setters.username Setters.password
      Setters.token Setters.token_x Setters.token_y Setters.user_agent Setters.tls_roots
      Setters.auth_timeout Setters.max_buf_size Setters.retry_timeout Setters.request_min_throughput
      Setters.request_timeout Setters.tls_verify Setters.tls_ca Setters.set_text Setters.with_http
      Setters.ensure_is_tcpx Setters.ensure_tls_enabled
  apply-token_x (bind_interface v) b b' h before = ground arith
  apply-token_x (username v) b b' h before = ground arith
  apply-token_x (password v) b b' h before = ground arith
  apply-token_x (token v) b b' h before = ground arith
  apply-token_x (token_x v) b b' h before = ground arith
  apply-token_x (token_y v) b b' h before = ground arith
  apply-token_x (user_agent v) b b' h before = ground arith
  apply-token_x (tls_roots v) b b' h before = ground arith
  apply-token_x (auth_timeout v) b b' h before = ground arith
  apply-token_x (max_buf_size v) b b' h before = ground arith
  apply-token_x (retry_timeout v) b b' h before = ground arith
  apply-token_x (request_min_throughput v) b b' h before = ground arith
  apply-token_x (request_timeout v) b b' h before = ground arith
  apply-token_x (tls_verify v) b b' h before = ground arith
  apply-token_x (tls_ca v) b b' h before = ground arith

  pub apply-token_y :
      (c : Change) (b b' : SenderBuilder)
      → apply opens c b ≡ ok b'
      → is_specified b.token_y ≡ true
      → b'.token_y ≡ b.token_y
  unfolding apply set_specified Setters.bind_interface Setters.username Setters.password
      Setters.token Setters.token_x Setters.token_y Setters.user_agent Setters.tls_roots
      Setters.auth_timeout Setters.max_buf_size Setters.retry_timeout Setters.request_min_throughput
      Setters.request_timeout Setters.tls_verify Setters.tls_ca Setters.set_text Setters.with_http
      Setters.ensure_is_tcpx Setters.ensure_tls_enabled
  apply-token_y (bind_interface v) b b' h before = ground arith
  apply-token_y (username v) b b' h before = ground arith
  apply-token_y (password v) b b' h before = ground arith
  apply-token_y (token v) b b' h before = ground arith
  apply-token_y (token_x v) b b' h before = ground arith
  apply-token_y (token_y v) b b' h before = ground arith
  apply-token_y (user_agent v) b b' h before = ground arith
  apply-token_y (tls_roots v) b b' h before = ground arith
  apply-token_y (auth_timeout v) b b' h before = ground arith
  apply-token_y (max_buf_size v) b b' h before = ground arith
  apply-token_y (retry_timeout v) b b' h before = ground arith
  apply-token_y (request_min_throughput v) b b' h before = ground arith
  apply-token_y (request_timeout v) b b' h before = ground arith
  apply-token_y (tls_verify v) b b' h before = ground arith
  apply-token_y (tls_ca v) b b' h before = ground arith
