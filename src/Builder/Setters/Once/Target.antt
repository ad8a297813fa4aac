-- ===== src/Builder/Setters/Once/Target.antt =====
-- The protocol, the host and the port under the setters of `SenderBuilder`.
use c_questdb_client.Base.{◌≡◌, Bool, arith}
use c_questdb_client.Text.{Str}
use c_questdb_client.Error.{ok}
use c_questdb_client.Builder.{SenderBuilder, set_specified, validate_value}
use c_questdb_client.Builder.Setters
use c_questdb_client.Builder.Setters.Valid.{
  Change, apply, bind_interface, username, password, token, token_x, token_y, user_agent, tls_roots,
  auth_timeout, max_buf_size, retry_timeout, request_min_throughput, request_timeout, tls_verify,
  tls_ca,
}

module _ (opens : Str → Bool) where
  pub apply-target :
      (c : Change) (b b' : SenderBuilder)
      → apply opens c b ≡ ok b'
      → (b'.protocol ≡ b.protocol) × (b'.host ≡ b.host) × (b'.port ≡ b.port)
  unfolding apply set_specified validate_value Setters.bind_interface Setters.username
      Setters.password Setters.token Setters.token_x Setters.token_y Setters.user_agent
      Setters.tls_roots Setters.auth_timeout Setters.max_buf_size Setters.retry_timeout
      Setters.request_min_throughput Setters.request_timeout Setters.tls_verify Setters.tls_ca
      Setters.set_text Setters.with_http Setters.ensure_is_tcpx Setters.ensure_tls_enabled
  apply-target (bind_interface v) b b' h = (ground arith, ground arith, ground arith)
  apply-target (username v) b b' h = (ground arith, ground arith, ground arith)
  apply-target (password v) b b' h = (ground arith, ground arith, ground arith)
  apply-target (token v) b b' h = (ground arith, ground arith, ground arith)
  apply-target (token_x v) b b' h = (ground arith, ground arith, ground arith)
  apply-target (token_y v) b b' h = (ground arith, ground arith, ground arith)
  apply-target (user_agent v) b b' h = (ground arith, ground arith, ground arith)
  apply-target (tls_roots v) b b' h = (ground arith, ground arith, ground arith)
  apply-target (auth_timeout v) b b' h = (ground arith, ground arith, ground arith)
  apply-target (max_buf_size v) b b' h = (ground arith, ground arith, ground arith)
  apply-target (retry_timeout v) b b' h = (ground arith, ground arith, ground arith)
  apply-target (request_min_throughput v) b b' h = (ground arith, ground arith, ground arith)
  apply-target (request_timeout v) b b' h = (ground arith, ground arith, ground arith)
  apply-target (tls_verify v) b b' h = (ground arith, ground arith, ground arith)
  apply-target (tls_ca v) b b' h = (ground arith, ground arith, ground arith)
