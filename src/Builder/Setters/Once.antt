-- ===== src/Builder/Setters/Once.antt =====
-- A setting that the user specified is never changed by a setter of `SenderBuilder`.
mod Auth
mod Tls
mod Limits
mod Http
mod Target
use c_questdb_client.Builder.Setters.Once.Target.{apply-target}
use c_questdb_client.Builder.Setters.Once.Http.{
  of_http, apply-retry_timeout, apply-request_timeout, apply-request_min_throughput,
}
use c_questdb_client.Base.{◌≡◌, refl, ◌∙◌, Bool, true, false, List, [], ◌∷◌, Option, some, ℕ, arith}
use c_questdb_client.Text.{Str}
use c_questdb_client.Error.{ok}
use c_questdb_client.Builder.{
  is_specified, SenderBuilder, HttpConfig, ConfigSetting, specified, defaulted, set_specified,
}
use c_questdb_client.Builder.Setters
use c_questdb_client.Builder.Setters.Valid.{
  Change, apply, apply_all, ok_inv, ok-injective, bind_interface, username, password, token,
  token_x, token_y, user_agent, tls_roots, auth_timeout, max_buf_size, retry_timeout,
  request_min_throughput, request_timeout, tls_verify, tls_ca,
}
use c_questdb_client.Builder.Setters.Once.Auth.{
  apply-username, apply-password, apply-token, apply-token_x, apply-token_y,
}
use c_questdb_client.Builder.Setters.Once.Tls.{apply-tls_verify, apply-tls_ca, apply-tls_roots}
use c_questdb_client.Builder.Setters.Once.Limits.{
  apply-net_interface, apply-max_buf_size, apply-auth_timeout,
}

-- A setting of HTTP is the same in `c`, where `b` has it and it is specified.
abbrev pub KeepsHttp : (HttpConfig → ConfigSetting ℕ) → SenderBuilder → SenderBuilder → Type 0
KeepsHttp field b c =
    (s : ConfigSetting ℕ)
    → of_http field b ≡ some s
    → is_specified s ≡ true
    → of_http field c ≡ some s

-- The settings of `b` that are specified are the same in `c`, and its protocol, host and port are.
pub record Keeps (b c : SenderBuilder) : Type 0 where
  pub protocol : c.protocol ≡ b.protocol
  pub host : c.host ≡ b.host
  pub port : c.port ≡ b.port
  pub net_interface : is_specified b.net_interface ≡ true → c.net_interface ≡ b.net_interface
  pub max_buf_size : is_specified b.max_buf_size ≡ true → c.max_buf_size ≡ b.max_buf_size
  pub auth_timeout : is_specified b.auth_timeout ≡ true → c.auth_timeout ≡ b.auth_timeout
  pub username : is_specified b.username ≡ true → c.username ≡ b.username
  pub password : is_specified b.password ≡ true → c.password ≡ b.password
  pub token : is_specified b.token ≡ true → c.token ≡ b.token
  pub token_x : is_specified b.token_x ≡ true → c.token_x ≡ b.token_x
  pub token_y : is_specified b.token_y ≡ true → c.token_y ≡ b.token_y
  pub tls_verify : is_specified b.tls_verify ≡ true → c.tls_verify ≡ b.tls_verify
  pub tls_ca : is_specified b.tls_ca ≡ true → c.tls_ca ≡ b.tls_ca
  pub tls_roots : is_specified b.tls_roots ≡ true → c.tls_roots ≡ b.tls_roots
  pub retry_timeout : KeepsHttp HttpConfig.retry_timeout b c
  pub request_timeout : KeepsHttp HttpConfig.request_timeout b c
  pub request_min_throughput : KeepsHttp HttpConfig.request_min_throughput b c

module _ (opens : Str → Bool) where
  apply-Keeps : (c : Change) (b b' : SenderBuilder) → apply opens c b ≡ ok b' → Keeps b b'
  apply-Keeps c b b' h = record {
    protocol = (apply-target opens c b b' h).0;
    host = (apply-target opens c b b' h).1;
    port = (apply-target opens c b b' h).2;
    net_interface = apply-net_interface opens c b b' h;
    max_buf_size = apply-max_buf_size opens c b b' h;
    auth_timeout = apply-auth_timeout opens c b b' h;
    username = apply-username opens c b b' h;
    password = apply-password opens c b b' h;
    token = apply-token opens c b b' h;
    token_x = apply-token_x opens c b b' h;
    token_y = apply-token_y opens c b b' h;
    tls_verify = apply-tls_verify opens c b b' h;
    tls_ca = apply-tls_ca opens c b b' h;
    tls_roots = apply-tls_roots opens c b b' h;
    retry_timeout = apply-retry_timeout opens c b b' h;
    request_timeout = apply-request_timeout opens c b b' h;
    request_min_throughput = apply-request_min_throughput opens c b b' h;
  }

Keeps-refl : (b : SenderBuilder) → Keeps b b
Keeps-refl b = record {
  protocol = refl;
  host = refl;
  port = refl;
  net_interface = λ h. refl;
  max_buf_size = λ h. refl;
  auth_timeout = λ h. refl;
  username = λ h. refl;
  password = λ h. refl;
  token = λ h. refl;
  token_x = λ h. refl;
  token_y = λ h. refl;
  tls_verify = λ h. refl;
  tls_ca = λ h. refl;
  tls_roots = λ h. refl;
  retry_timeout = λ s is h. is;
  request_timeout = λ s is h. is;
  request_min_throughput = λ s is h. is;
}

Keeps-trans : (b c d : SenderBuilder) → Keeps b c → Keeps c d → Keeps b d
Keeps-trans b c d k l = record {
  protocol = l.protocol ∙ k.protocol;
  host = l.host ∙ k.host;
  port = l.port ∙ k.port;
  net_interface = λ h. l.net_interface (rw (k.net_interface h) h) ∙ k.net_interface h;
  max_buf_size = λ h. l.max_buf_size (rw (k.max_buf_size h) h) ∙ k.max_buf_size h;
  auth_timeout = λ h. l.auth_timeout (rw (k.auth_timeout h) h) ∙ k.auth_timeout h;
  username = λ h. l.username (rw (k.username h) h) ∙ k.username h;
  password = λ h. l.password (rw (k.password h) h) ∙ k.password h;
  token = λ h. l.token (rw (k.token h) h) ∙ k.token h;
  token_x = λ h. l.token_x (rw (k.token_x h) h) ∙ k.token_x h;
  token_y = λ h. l.token_y (rw (k.token_y h) h) ∙ k.token_y h;
  tls_verify = λ h. l.tls_verify (rw (k.tls_verify h) h) ∙ k.tls_verify h;
  tls_ca = λ h. l.tls_ca (rw (k.tls_ca h) h) ∙ k.tls_ca h;
  tls_roots = λ h. l.tls_roots (rw (k.tls_roots h) h) ∙ k.tls_roots h;
  retry_timeout = λ s is h. l.retry_timeout s (k.retry_timeout s is h) h;
  request_timeout = λ s is h. l.request_timeout s (k.request_timeout s is h) h;
  request_min_throughput = λ s is h. l.request_min_throughput s (k.request_min_throughput s is h) h;
}

-- Whatever setters are called, where they all succeed no setting that was specified has changed,
-- those of HTTP included, and neither have the protocol, the host and the port.
pub apply_all-Keeps :
    (opens : Str → Bool) (cs : List Change) (b b' : SenderBuilder)
    → apply_all opens cs b ≡ ok b'
    → Keeps b b'
unfolding apply_all
apply_all-Keeps opens [] b b' h = rw (← ok-injective h) (Keeps-refl b)
apply_all-Keeps opens (c ∷ cs) b b' h =
    let (b₁, is, rest) = ok_inv (apply opens c b) (apply_all opens cs) b' h in
    Keeps-trans b b₁ b' (apply-Keeps opens c b b₁ is) (apply_all-Keeps opens cs b₁ b' rest)
